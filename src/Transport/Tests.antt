-- ===== src/Transport/Tests.antt =====
-- A delivery reaches the handlers of its subject.
use lpr_refactored.Prelude.{◌≡◌, refl, [], ◌∷◌, codes, text_eq}
use lpr_refactored.Transport.{empty, subscribe, deliver}

delivered :
    deliver (codes "a") (codes "x") (subscribe (codes "a") 7 (subscribe (codes "b") 8 empty).0).0
    ≡ (7, codes "a", codes "x") ∷ []
unfolding deliver subscribe empty text_eq
delivered = refl
