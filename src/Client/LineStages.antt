-- ===== src/Client/LineStages.antt =====
-- A line from the server lets the client run on, unless it says that the place is busy.
use kierki.Prelude.{
  ◌-◌, Bool, false, ◌||◌, Option, none, some, Bytes, codes, length, ◌≡◌, refl, ◌⊎◌, inl, inr,
  Returns, Returns-bind, Returns-if,
}
use kierki.Types.{tricks_per_round}
use kierki.IoWorkerHandler.{same_text}
use kierki.MsgParser.{parse_net_msg}
use kierki.MsgParser.Pieces.{ParseResp}
use kierki.Client.Dispatch.{
  ClientState, PlayerCall, on_server_line, on_msg, deal_line, trick_line, taken_line, score_line,
  wrong_line, busy_line, second_at, char_at, side_at, cards_at, sides_at, scores_at,
}

abbrev pub RunsOn : ClientState → ClientState × Option PlayerCall → Type 0
RunsOn c (c', call) = (c'.terminate ≡ c.terminate) ⊎ (c'.exit_flag ≡ 1)

deal_line-RunsOn : (msg : ParseResp) (c : ClientState) → Returns (RunsOn c) (deal_line msg c)
unfolding deal_line
deal_line-RunsOn msg c = Returns-bind (RunsOn c) (char_at msg 1) _ (λ m e.
    Returns-bind (RunsOn c) (cards_at tricks_per_round msg 3) _
      (λ h f. Returns-bind (RunsOn c) (side_at msg 2) _ (λ s g. inl refl)))

trick_line-RunsOn : (msg : ParseResp) (c : ClientState) → Returns (RunsOn c) (trick_line msg c)
unfolding trick_line
trick_line-RunsOn msg c =
    Returns-bind (RunsOn c) (second_at msg 1) _
      (λ rn e. Returns-bind (RunsOn c) (cards_at (length msg - 2) msg 2) _ (λ t f. inl refl))

taken_line-RunsOn : (msg : ParseResp) (c : ClientState) → Returns (RunsOn c) (taken_line msg c)
unfolding taken_line
taken_line-RunsOn msg c = Returns-bind (RunsOn c) (second_at msg 1) _ (λ rn e.
    Returns-bind (RunsOn c) (side_at msg (length msg - 1)) _
      (λ s f. Returns-bind (RunsOn c) (cards_at 4 msg 2) _ (λ t g. inl refl)))

score_line-RunsOn :
    (total : Bool) (msg : ParseResp) (c : ClientState) → Returns (RunsOn c) (score_line total msg c)
unfolding score_line
score_line-RunsOn total msg c =
    Returns-bind (RunsOn c) (scores_at 4 msg 1 (λ s. 0)) _ (λ res e. inl refl)

wrong_line-RunsOn : (msg : ParseResp) (c : ClientState) → Returns (RunsOn c) (wrong_line msg c)
unfolding wrong_line
wrong_line-RunsOn msg c = Returns-bind (RunsOn c) (second_at msg 1) _ (λ rn e. inl refl)

busy_line-RunsOn : (msg : ParseResp) (c : ClientState) → Returns (RunsOn c) (busy_line msg c)
unfolding busy_line
busy_line-RunsOn msg c =
    Returns-bind (RunsOn c) (sides_at (length msg - 1) msg 1) _ (λ ss e. inr refl)

on_msg-RunsOn : (msg : ParseResp) (c : ClientState) → Returns (RunsOn c) (on_msg msg c)
unfolding on_msg
on_msg-RunsOn msg c = Returns-bind (RunsOn c) (second_at msg 0) _ (λ kind e.
    Returns-if (RunsOn c) (same_text kind (codes "DEAL")) _ _ (λ f. deal_line-RunsOn msg c)
      (λ f.
        Returns-if (RunsOn c) (same_text kind (codes "TRICK_S")) _ _ (λ g. trick_line-RunsOn msg c)
          (λ g.
            Returns-if (RunsOn c) (same_text kind (codes "TAKEN")) _ _
              (λ h. taken_line-RunsOn msg c)
              (λ h.
                Returns-if (RunsOn c)
                  (same_text kind (codes "SCORE") || same_text kind (codes "TOTAL")) _ _
                  (λ k. score_line-RunsOn (same_text kind (codes "TOTAL")) msg c)
                  (λ k.
                    Returns-if (RunsOn c) (same_text kind (codes "WRONG")) _ _
                      (λ l. wrong_line-RunsOn msg c)
                      (λ l.
                        Returns-if (RunsOn c) (same_text kind (codes "BUSY")) _ (some (c, none))
                          (λ o. busy_line-RunsOn msg c) (λ o. inl refl)))))))

pub on_server_line-RunsOn :
    (line : Bytes) (c : ClientState) → Returns (RunsOn c) (on_server_line line c)
unfolding on_server_line
on_server_line-RunsOn line c =
    Returns-bind (RunsOn c) (parse_net_msg line false) _ (λ msg e. on_msg-RunsOn msg c)
