-- ===== src/Net/Tcp/Retry.antt =====
-- net/net.c: when no answer comes, tcp_poll_retransmit sends again three times and then gives up.
use epona_os.Base.{
  ℕ, zero, suc, ◌+◌, ◌-◌, ◌*◌, ◌≤◌, ◌<◌, ◌≡◌, refl, ap, ◌∙◌, ◌⊎◌, inl, inr, arith, length, ltb, leb,
  Bool-cases,
}
use epona_os.Net.State.{Net, transmit}
use epona_os.Net.Tcp.{
  tcp_retry_ticks, tcp_max_retries, send_tcp_segment, retry_get, poll_retransmit,
}

-- A connection that waits for the answer to its SYN or to its request.
pub record IsWaiting (s : Net) : Type 0 where
  pub state : (s.tcp_state ≡ 1) ⊎ (s.tcp_state ≡ 3)
  pub ticks : s.tcp_wait_ticks < tcp_retry_ticks
  pub retries : s.tcp_retries ≤ tcp_max_retries

-- How many more polls it waits.
abbrev pub polls_left : Net → ℕ
polls_left s =
    (tcp_max_retries - s.tcp_retries) * tcp_retry_ticks + (tcp_retry_ticks - s.tcp_wait_ticks)

pub polls : ℕ → Net → Net
polls zero s = s
polls (suc n) s = polls n (poll_retransmit s)

-- What a poll from `s` to `t` does while it is not the last.
record Waits (s t : Net) : Type 0 where
  waiting : IsWaiting t
  left : polls_left t + 1 ≡ polls_left s
  state_same : t.tcp_state ≡ s.tcp_state
  all_sent :
      length t.sent + (tcp_max_retries - t.tcp_retries)
      ≡ length s.sent + (tcp_max_retries - s.tcp_retries)

-- What the last poll does.
record GivesUp (s t : Net) : Type 0 where
  over : t.tcp_state ≡ 7
  left : polls_left s ≡ 1
  none_left : s.tcp_retries ≡ tcp_max_retries
  sent_same : t.sent ≡ s.sent

poll_lem : (s : Net) → IsWaiting s → Waits s (poll_retransmit s) ⊎ GivesUp s (poll_retransmit s)
unfolding poll_retransmit retry_get send_tcp_segment transmit
poll_lem s w = elim (Bool-cases (ltb (s.tcp_wait_ticks + 1) tcp_retry_ticks)) [
  | inl more ↦ inl (record {
    waiting = record {
      state = ground (arith, w.state, w.ticks);
      ticks = ground (arith, w.state, w.ticks);
      retries = ground (arith, w.state, w.retries, w.ticks);
    };
    left = ground (arith, w.state, w.ticks);
    state_same = ground (arith, w.state, w.ticks);
    all_sent = ground (arith, w.state, w.ticks);
  })
  | inr last ↦ elim (Bool-cases (leb tcp_max_retries s.tcp_retries)) [
    | inl done ↦ inr (record {
      over = ground (arith, w.state, w.ticks);
      left = ground (arith, w.state, w.ticks);
      none_left = ground (arith, w.retries);
      sent_same = ground (arith, w.state, w.ticks);
    })
    | inr again ↦ inl (record {
      waiting = record {
        state = ground (arith, w.state, w.ticks);
        ticks = ground (arith, w.state, w.ticks);
        retries = ground (arith, w.state, w.ticks);
      };
      left = ground (arith, w.state, w.ticks);
      state_same = ground (arith, w.state, w.ticks);
      all_sent = ground (arith, w.state, w.ticks);
    })
  ]
]

-- After `n` polls.
polls_lem :
    (n : ℕ) (s : Net)
    → IsWaiting s
    → (n < polls_left s → (polls n s).tcp_state ≡ s.tcp_state)
      × (n ≡ polls_left s
          → ((polls n s).tcp_state ≡ 7)
            × (length (polls n s).sent ≡ length s.sent + (tcp_max_retries - s.tcp_retries)))
unfolding polls
polls_lem zero s w = (λ h. refl, λ h. absurd (omega (arith, w.ticks)))
polls_lem (suc n) s w = elim (poll_lem s w) [
  | inl t ↦
      let ih = polls_lem n (poll_retransmit s) t.waiting in
      (
        λ h. ih.0 (omega (arith, t.left)) ∙ t.state_same,
        λ h. let r = ih.1 (omega (arith, t.left)) in (r.0, r.1 ∙ t.all_sent),
      )
  | inr g ↦ (λ h. absurd (omega (arith, g.left)), λ h. last n s g (omega (arith, g.left)))
]
  where
    last :
        (n : ℕ) (s : Net)
        → GivesUp s (poll_retransmit s)
        → n ≡ 0
        → ((polls n (poll_retransmit s)).tcp_state ≡ 7)
          × (length (polls n (poll_retransmit s)).sent
              ≡ length s.sent + (tcp_max_retries - s.tcp_retries))
    last zero s g e = (g.over, ap (λ l. length l) g.sent_same ∙ omega (arith, g.none_left))
    last (suc n) s g e = absurd (omega arith)

-- Without an answer, a connection that waits keeps its state for `polls_left` polls less one; the next poll
-- puts it into state 7, and by then exactly those of the three retransmissions have been sent that were left.
pub gives_up :
    (k : ℕ) (s : Net)
    → IsWaiting s
    → k < polls_left s
    → ((polls k s).tcp_state ≡ s.tcp_state)
      × ((polls (polls_left s) s).tcp_state ≡ 7)
      × (length (polls (polls_left s) s).sent ≡ length s.sent + (tcp_max_retries - s.tcp_retries))
gives_up k s w lt =
    let last = (polls_lem (polls_left s) s w).1 refl in ((polls_lem k s w).0 lt, last.0, last.1)
