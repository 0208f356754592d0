-- ===== src/Rle/Flush.antt =====
-- src/wire/bitmap_rle.c: what is still pending behind the last line is written.
use rdpserver.Base.{ℕ, ◌+◌, ◌*◌, ◌≤◌, ◌<◌, ◌≡◌, refl, sym, ap, ◌∙◌, arith, true}
use rdpserver.Base.{List, [], ◌++◌, append-nil, length}
use rdpserver.Base.{length-append, inl, inr, Bool-cases, Read, ok}
use rdpserver.Rle.Write.{out_copy_count}
use rdpserver.Rle.Encode.{Encoder, Kind, fill, mix, color, fom, is_due, write_run, last_flush}
use rdpserver.Rle.Shows.{Shows, Shows-append}
use rdpserver.Rle.Runs.{copy-Prints}
use rdpserver.Rle.Ends.{due_long}
use rdpserver.Rle.Invariant.{Holds, write_run-Writes}
use mathlib.Core.Path.{subst}

-- What is written at the end shows all pixels.
pub record Flushes (width : ℕ) (pixels : List ℕ) (m : Read Encoder) : Type 0 where
  pub next : Encoder
  pub made : m ≡ ok next
  pub shows : Shows width next.out [] pixels
  pub small : length next.out ≤ 3 * length pixels + 3

write_run-Flushes :
    (k : Kind) (width : ℕ) (e : Encoder) (pixels : List ℕ)
    → 0 < width
    → length pixels < 65536
    → is_due k e.counts ≡ true
    → Holds width e pixels
    → Flushes width pixels (write_run k e)
write_run-Flushes k width e pixels w l h i =
    let t = write_run-Writes k width e pixels w l (due_long k e.counts h) i in
    let all : t.step.holds.emitted ≡ pixels = sym (
      t.step.holds.split
      ∙ ap (λ r. t.step.holds.emitted ++ r) t.empty
      ∙ append-nil t.step.holds.emitted) in
    record {
      next = t.step.next;
      made = t.step.made;
      shows = subst (λ r. Shows width t.step.next.out [] r) all t.step.holds.shows;
      small = omega (arith, ap length all, t.step.holds.small);
    }

literals-Flushes :
    (width : ℕ) (e : Encoder) (pixels : List ℕ)
    → 0 < width
    → length pixels < 65536
    → Holds width e pixels
    → Flushes width pixels
        (ok (record e { out = out_copy_count (length e.temp) e.out e.temp; temp = [] }))
literals-Flushes width e pixels w l i =
    let size : length pixels ≡ length i.emitted + length e.temp =
      ap length i.split ∙ length-append i.emitted e.temp in
    let a =
      copy-Prints width (length e.temp) i.emitted e.temp [] e.temp w (sym (append-nil e.temp)) refl
        (omega (arith, size)) i.range in
    record {
      next = record e { out = out_copy_count (length e.temp) e.out e.temp; temp = [] };
      made = refl;
      shows =
          rw (a.made e.out, i.split)
            (Shows-append width e.out a.order [] i.emitted e.temp i.shows a.shows);
      small =
          rw (a.made e.out) (omega (arith, length-append e.out a.order, a.small, i.small, size));
    }

pub last_flush-Flushes :
    (width : ℕ) (e : Encoder) (pixels : List ℕ)
    → 0 < width
    → length pixels < 65536
    → Holds width e pixels
    → Flushes width pixels (last_flush e)
unfolding last_flush
last_flush-Flushes width e pixels w l i = elim (Bool-cases (is_due fill e.counts)) [
  | inl a ↦ rw a (write_run-Flushes fill width e pixels w l a i)
  | inr a ↦ elim (Bool-cases (is_due mix e.counts)) [
    | inl b ↦ rw (a, b) (write_run-Flushes mix width e pixels w l b i)
    | inr b ↦ elim (Bool-cases (is_due color e.counts)) [
      | inl c ↦ rw (a, b, c) (write_run-Flushes color width e pixels w l c i)
      | inr c ↦ elim (Bool-cases (is_due fom e.counts)) [
        | inl d ↦ rw (a, b, c, d) (write_run-Flushes fom width e pixels w l d i)
        | inr d ↦ rw (a, b, c, d) (literals-Flushes width e pixels w l i)
      ]
    ]
  ]
]
