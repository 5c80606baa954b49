-- ===== src/Scenario/Deals.antt =====
-- What `parseScenario` gives, whatever the file holds.
use kierki.Prelude.{Bool, true, List, some, Bytes, length, any, ◌≡◌, ◌⊎◌, Returns}
use kierki.Types.{Side, side_eq, IsSeat, Hand, TableState, tricks_per_round}
use kierki.Card
use kierki.Server.Invariant.{IsDeal}
use kierki.Scenario.{ParsedRound, name_round}

-- The side has a hand of thirteen cards.
abbrev HasHand : TableState → Side → Type 0
HasHand state s = (h : Hand) × (state s ≡ some h) × (length h ≡ tricks_per_round)

abbrev listed : Side → List Side → Bool
listed s ss = any (λ k. side_eq k s) ss

-- Behind the loop the sides of the list have their hands, and those that had one keep it.
abbrev Dealt : List Side → TableState → TableState × List Bytes → Type 0
Dealt ss state (got, left) = (s : Side) → (listed s ss ≡ true) ⊎ HasHand state s → HasHand got s

-- Each seat has thirteen cards, and if the two numbers name a penalty and a seat, the round is one
-- that can be played.
abbrev pub IsRead : ParsedRound → Type 0
IsRead r = ((s : Side) → IsSeat s → HasHand r.state s) × Returns IsDeal (name_round r)
