-- ===== src/Examples/Games.antt =====
-- Whole rounds and the server on concrete data.
use mathlib.Core.List.{Perm}
use mathlib.Core.List.Perm
use kierki.Prelude.{ℕ, ◌≡◌, refl, List, [], ◌∷◌, Option, none, some, length, inl, has, arith}
use kierki.Types.{
  Side, side_n, side_e, side_s, side_w, side_null, trick_penalty, everything, Card, Hand, Table,
  TableState, IsSeat, color_c, color_d, color_h, color_s,
}
use kierki.Card.{values}
use kierki.GameRules.RoundTotal.{tricks_penalty, gather, color_cards, pack, round_total}
use kierki.SendJob.{wrong}
use kierki.JobQueue.{job_queue}
use kierki.IoWorker.{drain_jobs}
use kierki.IoWorker.Draining.{push_all, drain-push_all}
use kierki.IoWorkerMgr.{IoWorkerMgr, io_worker_mgr, serving_active}
use kierki.Server.{Server, server}
use kierki.Server.Round.{play}
use kierki.Server.Sending.{AllServed}
use kierki.Server.Turns.{turns_since}
use kierki.Server.Invariant.{IsPlayable, HandFits}
use kierki.Server.NextRound.{IsReady}
use kierki.Server.Play.{play-IsReady}

abbrev fours : List Card → List Table
fours (a ∷ b ∷ c ∷ d ∷ rest) = (a ∷ b ∷ c ∷ d ∷ []) ∷ fours rest
fours _ = []

pack_gathered : Perm (gather (fours pack)) pack
unfolding pack
pack_gathered = Perm.refl _

thirteen : length (fours pack) ≡ 13
unfolding pack
thirteen = refl

round_total_example : tricks_penalty everything (fours pack) 1 ≡ 100
round_total_example = round_total everything (fours pack) thirteen pack_gathered

drain-push_all_example :
    drain_jobs 3 (push_all (wrong 1 ∷ wrong 2 ∷ []) job_queue) []
    ≡ some (job_queue, wrong 1 ∷ wrong 2 ∷ [])
drain-push_all_example = drain-push_all (wrong 1 ∷ wrong 2 ∷ []) job_queue [] 3 (omega arith)

-- Each side has the cards of one colour.
abbrev pub suits : TableState
suits side_n = some (color_cards color_c values)
suits side_e = some (color_cards color_d values)
suits side_s = some (color_cards color_h values)
suits side_w = some (color_cards color_s values)
suits side_null = none

abbrev seats : Side → Option ℕ
seats side_n = some 1
seats side_e = some 2
seats side_s = some 3
seats side_w = some 4
seats side_null = some 0

abbrev four_workers : IoWorkerMgr
four_workers = record io_worker_mgr {
  workers = (1, job_queue) ∷ (2, job_queue) ∷ (3, job_queue) ∷ (4, job_queue) ∷ [];
  roles =
      (1, serving_active) ∷ (2, serving_active) ∷ (3, serving_active) ∷ (4, serving_active) ∷ [];
  next_ix = 5;
}

-- The first round of a scenario with one round, with all players there.
unfoldable pub first_round : Server
unfolding server
first_round = record (server ((trick_penalty, suits, side_w) ∷ [])) {
  worker_mgr = four_workers;
  active_sides = seats;
  hands = suits;
  players_connected = 4;
  last_deal = suits;
  worker_to_side = (1, side_n) ∷ (2, side_e) ∷ (3, side_s) ∷ (4, side_w) ∷ [];
}

suits-IsDeal : (s : Side) → IsSeat s → (h : Hand) × (suits s ≡ some h) × (length h ≡ 13)
suits-IsDeal side_n h = (color_cards color_c values, refl, refl)
suits-IsDeal side_e h = (color_cards color_d values, refl, refl)
suits-IsDeal side_s h = (color_cards color_h values, refl, refl)
suits-IsDeal side_w h = (color_cards color_s values, refl, refl)
suits-IsDeal side_null h = absurd h

first_round-fits : (s : Side) → IsSeat s → HandFits first_round s
unfolding first_round turns_since
first_round-fits side_n h = (color_cards color_c values, refl, refl)
first_round-fits side_e h = (color_cards color_d values, refl, refl)
first_round-fits side_s h = (color_cards color_h values, refl, refl)
first_round-fits side_w h = (color_cards color_s values, refl, refl)
first_round-fits side_null h = absurd h

pub first_round-IsPlayable : IsPlayable first_round
unfolding first_round
first_round-IsPlayable = record {
  balanced = record { next_seat = tt; fits = first_round-fits; started = omega arith };
  open_trick = omega arith;
  deals = ((tt, suits-IsDeal), tt);
  rounds = inl (omega arith);
}

pub first_round-AllServed : AllServed first_round
unfolding first_round has
first_round-AllServed side_n h = (1, refl, refl)
first_round-AllServed side_e h = (2, refl, refl)
first_round-AllServed side_s h = (3, refl, refl)
first_round-AllServed side_w h = (4, refl, refl)
first_round-AllServed side_null h = absurd h

abbrev pub order : List Side
order = side_n ∷ side_s ∷ side_w ∷ side_e ∷ []

abbrev pub spade_king : Card
spade_king = record { value = b'K' ∷ []; col = color_s; true_val = 13 }

play-IsReady_example :
    (st' : Server) × (play order 1 spade_king side_w first_round ≡ some st') × IsReady st'
play-IsReady_example =
    play-IsReady order 1 spade_king side_w first_round
      (first_round-IsPlayable, first_round-AllServed) tt
