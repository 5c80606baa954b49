-- ===== src/Hands.antt =====
-- common/utils.cpp: `rmCardIfPresent` and `rmIntersection`, which take cards out of a hand.
pub mod Laws
use kierki.Prelude.{◌≡◌, List, [], ◌∷◌, if◌then◌else◌}
use kierki.Types.{Card, Hand, Table}
use kierki.Card.{same_card}

unfoldable pub rm_card_if_present : Hand → Card → Hand
rm_card_if_present [] card = []
rm_card_if_present (it ∷ hand) card =
    if same_card it card then hand else it ∷ rm_card_if_present hand card

unfoldable pub rm_intersection : Hand → Table → Hand
rm_intersection hand [] = hand
rm_intersection hand (ct ∷ table) = rm_intersection (rm_card_if_present hand ct) table
