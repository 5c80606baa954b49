-- ===== src/SendJob.antt =====
-- common/send_job.h and common/send_job.cpp: the messages that the two programs send. Each subclass
-- is a constructor; the score maps are given as their entries in the order of iteration.
use kierki.Prelude.{ℕ, List, [], ◌∷◌, ◌++◌, Bytes, codes}
use kierki.Types.{Side, side_char, RoundType, round_code, Card, Hand, Table}
use kierki.Card
use kierki.Text.{decimal}

pub data SendJob : Type 0 where
  busy : (taken : List Side) → SendJob
  deal : (round_type : RoundType) (starting : Side) (cards : Hand) → SendJob
  intro : (s : Side) → SendJob
  score : (scores : List (Side × ℕ)) → SendJob
  taken : (table : Table) (s : Side) (trick_no : ℕ) → SendJob
  total : (scores : List (Side × ℕ)) → SendJob
  trick : (table_state : Table) (trick_no : ℕ) → SendJob
  wrong : (trick_no : ℕ) → SendJob

-- The loops that append to `res`.
unfoldable pub side_chars : List Side → Bytes
side_chars [] = []
side_chars (s ∷ rest) = side_char s ∷ side_chars rest

unfoldable pub cards_text : List Card → Bytes
cards_text [] = []
cards_text (c ∷ rest) = Card.to_string c ++ cards_text rest

unfoldable pub scores_text : List (Side × ℕ) → Bytes
scores_text [] = []
scores_text ((s, n) ∷ rest) = side_char s ∷ (decimal n ++ scores_text rest)

-- What `genMsg` builds before the line's end.
unfoldable pub body : SendJob → Bytes
body (busy sides) = codes "BUSY" ++ side_chars sides
body (deal round_type starting cards) =
    codes "DEAL" ++ decimal (round_code round_type) ++ side_char starting ∷ cards_text cards
body (intro s) = codes "IAM" ++ side_char s ∷ []
body (score scores) = codes "SCORE" ++ scores_text scores
body (taken table s trick_no) =
    codes "TAKEN" ++ decimal trick_no ++ cards_text table ++ side_char s ∷ []
body (total scores) = codes "TOTAL" ++ scores_text scores
body (trick table trick_no) = codes "TRICK" ++ decimal trick_no ++ cards_text table
body (wrong trick_no) = codes "WRONG" ++ decimal trick_no

unfoldable pub gen_msg : SendJob → Bytes
unfolding body
gen_msg job = body job ++ codes "\r\n"
