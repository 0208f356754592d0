-- ===== src/Vchan/Tests.antt =====
-- Instances of the theorems on src/channels/vchan.c.
use rdpserver.Base.{
  ℕ, ◌≡◌, refl, arith, false, Option, some, List, [], ◌∷◌, replicate, length-replicate,
}
use rdpserver.Vchan.{Reasm, complete, feed}
use rdpserver.Vchan.Spec
use rdpserver.Vchan.Refine.{view, view_all, IsValid, IsMalloc, is_some, feed_refines}
use rdpserver.Vchan.Keeps.{feed_all, feed-IsValid, feed_all_lem}

-- A malloc that always has memory.
abbrev plenty : ℕ → Option (List ℕ)
plenty n = some (replicate n 0)

plenty-IsMalloc : IsMalloc plenty
plenty-IsMalloc = record { size = λ n block e. cc (e, length-replicate {A = ℕ} n 0) }

abbrev fresh : Reasm
fresh = record { buf = []; cap = 0; len = 0; max_pdu = 100; active = false }

fresh-IsValid : IsValid fresh
fresh-IsValid = record {
  backed = λ e. cc e;
  within = λ e. cc e;
  bounded = λ e. cc e;
  small = omega arith;
}

feed_refines_example :
    view_all (feed plenty fresh (1 ∷ 2 ∷ []) 3 1)
    ≡ Spec.feed 100 (is_some (plenty 3)) (view fresh) (1 ∷ 2 ∷ []) 3 1
feed_refines_example = feed_refines plenty fresh (1 ∷ 2 ∷ []) 3 1 plenty-IsMalloc fresh-IsValid

feed-IsValid_example : IsValid (feed plenty fresh (1 ∷ 2 ∷ []) 3 1).1
feed-IsValid_example = feed-IsValid plenty fresh (1 ∷ 2 ∷ []) 3 1 plenty-IsMalloc fresh-IsValid

feed_all_lem_example :
    (feed_all plenty fresh 4 (1 ∷ []) ((2 ∷ 3 ∷ []) ∷ []) (4 ∷ [])).0
    ≡ complete (1 ∷ 2 ∷ 3 ∷ 4 ∷ [])
feed_all_lem_example =
    feed_all_lem plenty fresh 4 (1 ∷ []) ((2 ∷ 3 ∷ []) ∷ []) (4 ∷ []) plenty-IsMalloc fresh-IsValid
      refl (omega arith) (omega arith) (omega arith)
