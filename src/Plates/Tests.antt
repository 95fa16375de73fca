-- ===== src/Plates/Tests.antt =====
-- Plates as the cameras read them.
use lpr_refactored.Prelude.{◌≡◌, refl, true, false, codes}
use lpr_refactored.Plates.{normalize_plate_text, plate_similar}

lowers_all_but_D : normalize_plate_text (codes "12J34D67") ≡ codes "12j34D67"
unfolding normalize_plate_text
lowers_all_but_D = refl

two_misreads : plate_similar (codes "22b21957") (codes "32b31957") 2 ≡ true
unfolding plate_similar
two_misreads = refl

other_letter : plate_similar (codes "22b21957") (codes "22d21957") 2 ≡ false
unfolding plate_similar
other_letter = refl
