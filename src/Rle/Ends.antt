-- ===== src/Rle/Ends.antt =====
-- src/wire/bitmap_rle.c: the steps that end runs keep the invariant of the encoder.
use rdpserver.Base.{ℕ, ◌<◌, ◌≡◌, refl, ◌∙◌, arith, Bool, true, false, ◌||◌}
use rdpserver.Base.{List, ◌++◌, if◌then◌else◌, length}
use rdpserver.Base.{inl, inr, ◌⊎◌, Bool-cases, Read, ok, ◌>>=◌}
use rdpserver.Rle.Encode.{
  Counts, Encoder, Kind, fill, mix, color, fom, run, is_due, write_run, cleared, end_run,
  end_unless,
}
use rdpserver.Rle.Bits.{IsMask}
use rdpserver.Rle.Runs.{Ran}
use rdpserver.Rle.Counts.{tested}
use rdpserver.Rle.Invariant.{Tail, Tail-zero, Holds, Steps, IsMask-nil, write_run-Writes}

pub due_long : (k : Kind) (c : Counts) → is_due k c ≡ true → 3 < run k c
due_long k c e = ground (arith, e)

-- A run that is not the cleared one goes on.
cleared-cases :
    (k j : Kind) (c : Counts)
    → (run j (cleared k c) ≡ 0)
      ⊎ ((run j (cleared k c) ≡ run j c)
          × ((width last : ℕ) (s xs : List ℕ)
              → Ran j width c last s xs
              → Ran j width (cleared k c) last s xs))
cleared-cases fill fill c = inl refl
cleared-cases fill mix c = inr (refl, λ width last s xs r. r)
cleared-cases fill color c = inr (refl, λ width last s xs r. r)
cleared-cases fill fom c = inr (refl, λ width last s xs r. r)
cleared-cases mix fill c = inr (refl, λ width last s xs r. r)
cleared-cases mix mix c = inl refl
cleared-cases mix color c = inr (refl, λ width last s xs r. r)
cleared-cases mix fom c = inr (refl, λ width last s xs r. r)
cleared-cases color fill c = inr (refl, λ width last s xs r. r)
cleared-cases color mix c = inr (refl, λ width last s xs r. r)
cleared-cases color color c = inl refl
cleared-cases color fom c = inr (refl, λ width last s xs r. r)
cleared-cases fom fill c = inr (refl, λ width last s xs r. r)
cleared-cases fom mix c = inr (refl, λ width last s xs r. r)
cleared-cases fom color c = inr (refl, λ width last s xs r. r)
cleared-cases fom fom c = inl refl

Tail-cleared :
    (k j : Kind) (width last : ℕ) (c : Counts) (emitted temp : List ℕ)
    → Tail j width c last emitted temp
    → Tail j width (cleared k c) last emitted temp
Tail-cleared k j width last c emitted temp t = elim (cleared-cases k j c) [
  | inl z ↦ Tail-zero j width (cleared k c) last emitted temp z
  | inr e ↦ record {
    lit = t.lit;
    ran = t.ran;
    split = t.split;
    many = e.0 ∙ t.many;
    same = e.1 width last (emitted ++ t.lit) t.ran t.same;
  }
]

run-cleared_zero : (k j : Kind) (c : Counts) → run j c ≡ 0 → run j (cleared k c) ≡ 0
run-cleared_zero k j c z = elim (cleared-cases k j c) [ inl e ↦ e | inr e ↦ e.0 ∙ z ]

run-cleared : (k : Kind) (c : Counts) → run k (cleared k c) ≡ 0
run-cleared fill c = refl
run-cleared mix c = refl
run-cleared color c = refl
run-cleared fom c = refl

IsMask-cleared :
    (k : Kind) (c : Counts)
    → IsMask c.fom_count c.fom_mask
    → IsMask (cleared k c).fom_count (cleared k c).fom_mask
IsMask-cleared fill c m = m
IsMask-cleared mix c m = m
IsMask-cleared color c m = m
IsMask-cleared fom c m = IsMask-nil

cleared-Holds :
    (k : Kind) (width : ℕ) (e : Encoder) (pixels : List ℕ)
    → Holds width e pixels
    → Holds width (record e { counts = cleared k e.counts }) pixels
cleared-Holds k width e pixels i = record {
  emitted = i.emitted;
  split = i.split;
  shows = i.shows;
  small = i.small;
  range = i.range;
  last = i.last;
  mask = IsMask-cleared k e.counts i.mask;
  tails = λ j. Tail-cleared k j width e.last_pixel e.counts i.emitted e.temp (i.tails j);
}

stays-Steps :
    (width : ℕ) (e : Encoder) (pixels : List ℕ) → Holds width e pixels → Steps width e pixels (ok e)
stays-Steps width e pixels i = record {
  next = e;
  made = refl;
  holds = i;
  kept = refl;
  zeros = λ j z. z;
}

-- A step that also leaves no run of a kind.
pub record Stops (k : Kind) (width : ℕ) (e : Encoder) (pixels : List ℕ) (m : Read Encoder)
    : Type 0 where
  pub step : Steps width e pixels m
  pub stopped : run k step.next.counts ≡ 0

pub end_run-Stops :
    (k : Kind) (width : ℕ) (e : Encoder) (pixels : List ℕ)
    → 0 < width
    → length pixels < 65536
    → Holds width e pixels
    → Stops k width e pixels (end_run k e)
unfolding end_run
end_run-Stops k width e pixels w l i = record {
  step = record {
    next = record s.next { counts = cleared k s.next.counts };
    made = rw s.made refl;
    holds = cleared-Holds k width s.next pixels s.holds;
    kept = s.kept;
    zeros = λ j z. run-cleared_zero k j s.next.counts (s.zeros j z);
  };
  stopped = run-cleared k s.next.counts;
}
  where
    s : Steps width e pixels (if is_due k e.counts then write_run k e else ok e)
    s = elim (Bool-cases (is_due k e.counts)) [
      | inl h ↦ rw h (write_run-Writes k width e pixels w l (due_long k e.counts h) i).step
      | inr h ↦ rw h (stays-Steps width e pixels i)
    ]

-- `end_unless` stops the run of its kind when the test fails.
record Unless (test : Bool) (k : Kind) (width : ℕ) (e : Encoder) (pixels : List ℕ)
    (m : Read Encoder) : Type 0 where
  step : Steps width e pixels m
  stopped : test ≡ false → run k step.next.counts ≡ 0

end_unless-Unless :
    (test : Bool) (k : Kind) (width : ℕ) (e : Encoder) (pixels : List ℕ)
    → 0 < width
    → length pixels < 65536
    → Holds width e pixels
    → Unless test k width e pixels (end_unless test k e)
end_unless-Unless true k width e pixels w l i = record {
  step = stays-Steps width e pixels i;
  stopped = λ f. absurd (ground (arith, f));
}
end_unless-Unless false k width e pixels w l i =
    let t = end_run-Stops k width e pixels w l i in
    record { step = t.step; stopped = λ f. t.stopped }

abbrev ends : Bool → Bool → Bool → Encoder → (Encoder → Read Encoder) → Read Encoder
ends test_fill test_mix test_color e f = do
  e1 ← end_unless test_fill fill e
  e2 ← end_unless test_mix mix e1
  e3 ← end_unless test_color color e2
  e4 ← end_unless (test_fill || test_mix) fom e3
  f e4

pub record Ended (test : Kind → Bool) (width : ℕ) (e : Encoder) (pixels : List ℕ)
    (m : (Encoder → Read Encoder) → Read Encoder) : Type 0 where
  pub next : Encoder
  pub made : (f : Encoder → Read Encoder) → m f ≡ f next
  pub holds : Holds width next pixels
  pub kept : next.last_pixel ≡ e.last_pixel
  pub stopped : (k : Kind) → test k ≡ false → run k next.counts ≡ 0

pub ends-Ended :
    (test_fill test_mix test_color : Bool) (width : ℕ) (e : Encoder) (pixels : List ℕ)
    → 0 < width
    → length pixels < 65536
    → Holds width e pixels
    → Ended
        (tested test_fill test_mix test_color)
        width
        e
        pixels
        (ends test_fill test_mix test_color e)
ends-Ended test_fill test_mix test_color width e pixels w l i =
    let a = end_unless-Unless test_fill fill width e pixels w l i in
    let b = end_unless-Unless test_mix mix width a.step.next pixels w l a.step.holds in
    let c = end_unless-Unless test_color color width b.step.next pixels w l b.step.holds in
    let d =
      end_unless-Unless (test_fill || test_mix) fom width c.step.next pixels w l c.step.holds in
    record {
      next = d.step.next;
      made = λ f. rw (a.step.made, b.step.made, c.step.made, d.step.made) refl;
      holds = d.step.holds;
      kept = d.step.kept ∙ c.step.kept ∙ b.step.kept ∙ a.step.kept;
      stopped = elim [
        | fill ↦ λ f. d.step.zeros fill (c.step.zeros fill (b.step.zeros fill (a.stopped f)))
        | mix ↦ λ f. d.step.zeros mix (c.step.zeros mix (b.stopped f))
        | color ↦ λ f. d.step.zeros color (c.stopped f)
        | fom ↦ λ f. d.stopped f
      ];
    }
