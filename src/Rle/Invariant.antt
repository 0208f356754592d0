-- ===== src/Rle/Invariant.antt =====
-- src/wire/bitmap_rle.c: what holds of the variables of the encoder behind any pixel, and that the
-- end of a run keeps it.
use rdpserver.Base.{ℕ, ◌+◌, ◌-◌, ◌*◌, ◌≤◌, ◌<◌, ◌≡◌, refl, sym, ap, ◌∙◌, arith, false}
use rdpserver.Base.{List, [], ◌∷◌, ◌++◌, append-nil, append_assoc, ltb, length, All}
use rdpserver.Base.{length-append, Read, ok}
use rdpserver.Rle.Write.{out_copy_count}
use rdpserver.Rle.Encode.{
  Counts, no_counts, Encoder, Kind, fill, mix, color, fom, run, emit, write_run,
}
use rdpserver.Rle.Shows.{IsPixel, Shows, Shows-append}
use rdpserver.Rle.Bits.{IsMask}
use rdpserver.Rle.Runs.{Prints, copy-Prints, Ran, emit-Prints}
use mathlib.Core.Path.{subst}

-- A count is that of a run at the end of the pixels in `temp`.
pub record Tail (k : Kind) (width : ℕ) (c : Counts) (last : ℕ) (emitted temp : List ℕ)
    : Type 0 where
  pub lit : List ℕ
  pub ran : List ℕ
  pub split : temp ≡ lit ++ ran
  pub many : run k c ≡ length ran
  pub same : Ran k width c last (emitted ++ lit) ran

Ran-nil : (k : Kind) (width : ℕ) (c : Counts) (last : ℕ) (s : List ℕ) → Ran k width c last s []
Ran-nil fill width c last s = tt
Ran-nil mix width c last s = tt
Ran-nil color width c last s = tt
Ran-nil fom width c last s = tt

pub Tail-zero :
    (k : Kind) (width : ℕ) (c : Counts) (last : ℕ) (emitted temp : List ℕ)
    → run k c ≡ 0
    → Tail k width c last emitted temp
Tail-zero k width c last emitted temp e = record {
  lit = temp;
  ran = [];
  split = sym (append-nil temp);
  many = e;
  same = Ran-nil k width c last (emitted ++ temp);
}

-- `pixels` were read: the bytes so far show those that are not in `temp`.
pub record Holds (width : ℕ) (e : Encoder) (pixels : List ℕ) : Type 0 where
  pub emitted : List ℕ
  pub split : pixels ≡ emitted ++ e.temp
  pub shows : Shows width e.out [] emitted
  pub small : length e.out ≤ 3 * length emitted
  pub range : All IsPixel e.temp
  pub last : IsPixel e.last_pixel
  pub mask : IsMask e.counts.fom_count e.counts.fom_mask
  pub tails : (k : Kind) → Tail k width e.counts e.last_pixel emitted e.temp

All-append : (xs ys : List ℕ) → All IsPixel (xs ++ ys) → All IsPixel xs × All IsPixel ys
All-append [] ys a = (tt, a)
All-append (x ∷ xs) ys a = let t = All-append xs ys a.1 in ((a.0, t.0), t.1)

pub IsMask-nil : IsMask 0 []
IsMask-nil = record { long = refl; free = omega arith }

none-Tail :
    (k : Kind) (width last : ℕ) (emitted temp : List ℕ) → Tail k width no_counts last emitted temp
none-Tail fill width last emitted temp = Tail-zero fill width no_counts last emitted temp refl
none-Tail mix width last emitted temp = Tail-zero mix width no_counts last emitted temp refl
none-Tail color width last emitted temp = Tail-zero color width no_counts last emitted temp refl
none-Tail fom width last emitted temp = Tail-zero fom width no_counts last emitted temp refl

-- The invariant when all is written out.
pub written-Holds :
    (width last : ℕ) (out pixels : List ℕ)
    → Shows width out [] pixels
    → length out ≤ 3 * length pixels
    → IsPixel last
    → Holds width (record { out = out; counts = no_counts; temp = []; last_pixel = last }) pixels
written-Holds width last out pixels s h l = record {
  emitted = pixels;
  split = sym (append-nil pixels);
  shows = s;
  small = h;
  range = tt;
  last = l;
  mask = IsMask-nil;
  tails = λ k. none-Tail k width last pixels [];
}

-- A step that succeeds, keeps the invariant and the last pixel, and leaves no count where it can.
pub record Steps (width : ℕ) (e : Encoder) (pixels : List ℕ) (m : Read Encoder) : Type 0 where
  pub next : Encoder
  pub made : m ≡ ok next
  pub holds : Holds width next pixels
  pub kept : next.last_pixel ≡ e.last_pixel
  pub zeros : (k : Kind) → run k e.counts ≡ 0 → run k next.counts ≡ 0

run-no_counts : (k : Kind) → run k no_counts ≡ 0
run-no_counts fill = refl
run-no_counts mix = refl
run-no_counts color = refl
run-no_counts fom = refl

-- Behind the literals and the run.
both_written :
    (width last : ℕ) (out out' pixels emitted lit ran : List ℕ) (literals run : List ℕ → List ℕ)
    → Shows width out [] emitted
    → length out ≤ 3 * length emitted
    → IsPixel last
    → Prints width (3 * length lit + 3) emitted lit literals
    → Prints width (3 * length ran - 3) (emitted ++ lit) ran run
    → 3 < length ran
    → pixels ≡ (emitted ++ lit) ++ ran
    → out' ≡ run (literals out)
    → Holds width (record { out = out'; counts = no_counts; temp = []; last_pixel = last }) pixels
both_written width last out out' pixels emitted lit ran literals run s h q a b l e f =
    written-Holds width last out' pixels (rw (bytes, e) shown)
      (rw (bytes, e)
        (omega (
          arith,
          length-append (out ++ a.order) b.order,
          length-append out a.order,
          length-append (emitted ++ lit) ran,
          length-append emitted lit,
          a.small,
          b.small,
        )))
      q
  where
    bytes : out' ≡ (out ++ a.order) ++ b.order
    bytes = f ∙ ap run (a.made out) ∙ b.made (out ++ a.order)

    shown : Shows width ((out ++ a.order) ++ b.order) [] ((emitted ++ lit) ++ ran)
    shown =
        Shows-append width (out ++ a.order) b.order [] (emitted ++ lit) ran
          (Shows-append width out a.order [] emitted lit s a.shows) b.shows

-- It leaves no pixels.
pub record Writes (k : Kind) (width : ℕ) (e : Encoder) (pixels : List ℕ) : Type 0 where
  pub step : Steps width e pixels (write_run k e)
  pub empty : step.next.temp ≡ []

pub write_run-Writes :
    (k : Kind) (width : ℕ) (e : Encoder) (pixels : List ℕ)
    → 0 < width
    → length pixels < 65536
    → 3 < run k e.counts
    → Holds width e pixels
    → Writes k width e pixels
unfolding write_run
write_run-Writes k width e pixels w l h i =
    let t = i.tails k in
    let whole : pixels ≡ (i.emitted ++ t.lit) ++ t.ran =
      i.split ∙ ap (λ r. i.emitted ++ r) t.split ∙ sym (append_assoc i.emitted t.lit t.ran) in
    let size : length pixels ≡ length i.emitted + length t.lit + length t.ran =
      ap length whole
      ∙ ground (arith, length-append (i.emitted ++ t.lit) t.ran, length-append i.emitted t.lit) in
    let temp_size : length e.temp ≡ length t.lit + length t.ran =
      ap length t.split ∙ length-append t.lit t.ran in
    let ranges = All-append t.lit t.ran (subst (λ r. All IsPixel r) t.split i.range) in
    let a =
      copy-Prints width (length e.temp - run k e.counts) i.emitted t.lit t.ran e.temp w t.split
        (omega (arith, temp_size, t.many)) (omega (arith, temp_size, size)) ranges.0 in
    let b =
      emit-Prints k width e (i.emitted ++ t.lit) t.ran w t.many (omega (arith, t.many))
        (omega arith) i.mask i.last ranges.1 t.same in
    let out = emit k e (out_copy_count (length e.temp - run k e.counts) e.out e.temp) in
    record {
      step = record {
        next = record e { out = out; counts = no_counts; temp = [] };
        made = rw (fits (omega (arith, temp_size, t.many))) refl;
        holds =
            both_written width e.last_pixel e.out out pixels i.emitted t.lit t.ran
              (λ o. out_copy_count (length e.temp - run k e.counts) o e.temp) (emit k e) i.shows
              i.small i.last
              (record {
                order = a.order;
                made = a.made;
                small = omega (arith, a.small, temp_size, t.many);
                shows = a.shows;
              })
              b (omega (arith, t.many)) whole refl;
        kept = refl;
        zeros = λ j z. run-no_counts j;
      };
      empty = refl;
    }
  where
    fits : run k e.counts ≤ length e.temp → ltb (length e.temp) (run k e.counts) ≡ false
    fits x = ground (arith, x)
