-- ===== src/Examples/Clients.antt =====
-- The client on concrete bytes, with each of its players.
use mathlib.Core.List.{Perm}
use kierki.Prelude.{
  List, ℕ, Bool, true, [], ◌∷◌, ◌++◌, Option, none, some, Bytes, codes, ◌≡◌, refl, arith, ◌>>=◌,
  if◌then◌else◌, All,
}
use kierki.Types.{Card, side_n, side_e, side_s, side_w}
use kierki.Card.{at, same_card}
use kierki.Card
use kierki.Card.Laws.{IsCard}
use kierki.SendJob.{scores_text, SendJob, total, wrong, trick, gen_msg, body}
use kierki.GameRules.{is_move_legal}
use kierki.Client.PlayerAuto.{PlayerAuto}
use kierki.Client.PlayerConsole.{PlayerConsole, any_cmd}
use kierki.Client.Console.{owned, any_cmd-unasked, any_cmd-card, any_cmd-Perm}
use kierki.Client.Dispatch.{on_server_line, on_msg, score_line, scores_at, side_at}
use kierki.Client.ExitCode.{auto_player-IsDetached}
use kierki.Client.Value.{value_after, IsGameMsg, run-value_after}
use kierki.Client.Pieces.{in_pieces, joined, run_loop-in_pieces}
use kierki.IoWorker.Loop.Sending.{all_bytes}
use kierki.IoWorkerHandler.{peer_closed, would_block}
use kierki.Regex.{regex_match}
use kierki.MsgParser.{parse_wrong, parse_net_msg, parse_as, parse_scores}
use kierki.Text.{atoi, decimal, digits}
use kierki.Client.Delivery.{call_of}
use kierki.Client.Run.{
  run, run_loop, step, on_sock, take_msg, take_line, after_sock, send_message, auto_call,
  sock_ready, ClientEnd, client_end, Session, make_call, auto_player, read_sock, choose_card,
  is_waiting_for_card,
}
use kierki.Client.Session.{read_on}
use kierki.Client.Answer.{having_read, having_played, read_sock-gen_msg, read_sock-answer}
use kierki.Examples.Cards.{west, west_holds, heart_two, club_jack}
use kierki.Examples.Messages.{playing, west_takes, west_takes-IsToClient, west_takes-IsCard}

-- The socket takes every message.
abbrev all_taken : Bytes → Bytes → Bool
all_taken sent msg = true

abbrev seated : Session PlayerAuto
seated = record {
  player = west;
  client = record { state = playing; selected_card = heart_two; sent = [] };
  next_cmd = [];
  next_msg = [];
}

run_loop-in_pieces_example :
    run_loop
      (auto_player all_taken)
      (in_pieces (codes "WRO" ∷ codes "NG2\r" ∷ []) (codes "\nTR") would_block [])
      seated
    ≡ run_loop (auto_player all_taken) (sock_ready (codes "WRONG2\r\nTR") would_block ∷ []) seated
run_loop-in_pieces_example =
    run_loop-in_pieces (auto_player all_taken) (codes "WRO" ∷ codes "NG2\r" ∷ []) (codes "\nTR")
      would_block [] seated refl

read_sock-gen_msg_example :
    read_sock (auto_player all_taken) (gen_msg west_takes ++ codes "TR") seated ≡ (
      make_call
        (auto_player all_taken)
        (call_of west_takes playing.stage)
        (having_read west_takes seated)
      >>= read_on (auto_player all_taken) (codes "TR"))
read_sock-gen_msg_example =
    read_sock-gen_msg (auto_player all_taken) west_takes (codes "TR") seated west_takes-IsToClient
      west_takes-IsCard refl refl

read_sock-answer_example :
    (c : Card) × (p : PlayerAuto) × (read_sock
        (auto_player all_taken)
        (gen_msg (trick [] 12) ++ codes "TR")
        seated
      ≡ read_sock (auto_player all_taken) (codes "TR") (having_played 12 [] c p seated))
    × (is_move_legal side_w c west_holds [] ≡ some true)
read_sock-answer_example =
    read_sock-answer all_taken 12 [] (codes "TR") side_w west_holds seated
      (omega arith, tt, (omega arith, omega arith)) tt refl refl (λ m. refl) (omega arith) (cc) refl

-- A player at the console, and a client that is asked for a card or is not.
abbrev at_console : PlayerConsole
at_console = record {
  in_game_side = side_w;
  last_cards = [];
  local_hand = heart_two ∷ club_jack ∷ [];
  taken_tricks = [];
}

abbrev unasked : ClientEnd
unasked = record { state = playing; selected_card = heart_two; sent = [] }

abbrev asked : ClientEnd
asked = record unasked { state = record playing { waiting_for_card = true } }

at_console-IsCard : All IsCard (heart_two ∷ club_jack ∷ [])
unfolding at
at_console-IsCard = (refl, (refl, tt))

any_cmd-unasked_example :
    (out : Bytes) × (any_cmd is_waiting_for_card
        (choose_card all_taken)
        (codes "!2H")
        at_console
        unasked
      ≡ some (at_console, unasked, out))
unfolding is_waiting_for_card
any_cmd-unasked_example =
    any_cmd-unasked is_waiting_for_card (choose_card all_taken) b'!' (codes "2H") at_console unasked
      refl

any_cmd-card_example :
    (p' : PlayerConsole) × (any_cmd is_waiting_for_card
        (choose_card all_taken)
        (codes "!2H")
        at_console
        asked
      ≡ some (
        p',
        (choose_card all_taken heart_two asked).0,
        if (choose_card all_taken heart_two asked).1
            then []
            else codes "2H" ++ codes " is not a valid card!\n",
      ))
    × (p'.last_cards ≡ heart_two ∷ [])
    × Perm at_console.local_hand (heart_two ∷ p'.local_hand)
    × Perm (owned at_console) (owned p')
unfolding is_waiting_for_card Card.to_string same_card at
any_cmd-card_example =
    any_cmd-card is_waiting_for_card (choose_card all_taken) heart_two at_console asked
      at_console-IsCard refl refl refl

any_cmd-Perm_example : Perm (owned at_console) (owned at_console)
unfolding any_cmd
any_cmd-Perm_example =
    any_cmd-Perm is_waiting_for_card (choose_card all_taken) (codes "tricks") at_console at_console
      asked asked [] at_console-IsCard refl

-- A refusal and the totals, which come in two pieces.
abbrev totals : List SendJob
totals = wrong 2 ∷ total ((side_n, 9) ∷ (side_e, 4) ∷ (side_s, 1) ∷ (side_w, 12) ∷ []) ∷ []

abbrev totals_cut : List Bytes
totals_cut = codes "WRONG2\r\nTOT" ∷ []

abbrev totals_end : Bytes
totals_end = codes "ALN9E4S1W12\r\n"

totals_whole : joined totals_cut totals_end ≡ all_bytes totals
unfolding gen_msg body decimal digits scores_text
totals_whole = refl

totals-IsGameMsg : All IsGameMsg totals
totals-IsGameMsg =
    (((omega arith, omega arith), tt), (((refl, (tt, (tt, (tt, (tt, tt))))), tt), tt))

abbrev ended : Option (Session PlayerAuto × Option ℕ)
ended =
    run all_taken (auto_player all_taken) side_w (in_pieces totals_cut totals_end peer_closed [])
      west

abbrev at_end : Session PlayerAuto
at_end = elim ended [ none ↦ seated | some r ↦ r.0 ]

-- The client reads the totals and then the end of the connection.
ended_well : ended ≡ some (at_end, some 0)
unfolding run run_loop step on_sock read_sock take_msg take_line make_call after_sock client_end
    send_message gen_msg body on_server_line on_msg score_line scores_at side_at parse_net_msg
    regex_match parse_as parse_scores atoi auto_player auto_call parse_wrong
ended_well = refl

run-value_after_example : some 0 ≡ some (value_after 1 totals)
run-value_after_example =
    run-value_after all_taken (auto_player all_taken) side_w totals totals_cut totals_end west
      at_end (some 0) (auto_player-IsDetached all_taken) totals-IsGameMsg totals_whole ended_well
