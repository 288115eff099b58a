-- ===== src/Messaging/Ack/Wait/Silence.antt =====
-- messaging/ack.go: a wait for an acknowledgement that never comes.
use go_wsc.Base.{
  ℕ, zero, suc, ◌+◌, ◌^◌, ◌<◌, ◌≡◌, refl, sym, ap, ◌∙◌, true, false, none, List, arith, nat_eq,
  string_eq, pair_eq, replicate,
}
use go_wsc.Base.Int.{pos, ◌+ℤ◌, leb_ℤ, int64}
use go_wsc.Messaging.Ack.{PendingMessage}
use go_wsc.Messaging.Ack.Wait.{
  ack_timeout_retries, timer, waits, failed, try_receive_ack, arrive, after_retry, on_timer, wake,
  Event, wakes, happens, then_wait, wait_for_ack_with_retry,
}
use go_wsc.Messaging.Ack.Wait.Ends.{Counts, one_more, same_count}

-- Silence: the timer fires, the call succeeds and nothing is acknowledged.
abbrev pub silence : ℕ → List Event
silence n = replicate n (wakes (timer none none))

module _ (pm : PendingMessage) (quiet : pm.ack_chan ≡ none) where
  silent_retry :
      leb_ℤ pm.max_retry pm.retry ≡ false
      → happens (wakes (timer none none)) pm
        ≡ waits (record pm { retry = int64 (pm.retry +ℤ pos 1) })
  unfolding happens wake on_timer after_retry try_receive_ack arrive
  silent_retry h = rw (quiet, h) refl

  silent_end :
      leb_ℤ pm.max_retry pm.retry ≡ true
      → happens (wakes (timer none none)) pm
        ≡ failed (ack_timeout_retries pm.retry pm.message_id) pm
  unfolding happens wake on_timer try_receive_ack
  silent_end h = rw (quiet, h) refl

regroup : (r n : ℕ) → (r + 1) + n ≡ r + suc n
regroup r n = omega arith

-- In silence, where the timer fires, the call succeeds and nothing is acknowledged, a message with
-- an empty channel that may be sent again n times more is sent again n times, and the wait ends
-- with a timeout that tells the whole number of calls, as long as that is below 2 to the 62nd.
pub wait_for_ack_with_retry-silence :
    (n r : ℕ) (pm : PendingMessage)
    → Counts r (r + n) pm
    → r + n < 2 ^ 62
    → pm.ack_chan ≡ none
    → wait_for_ack_with_retry (silence (suc n)) pm
      ≡ failed (ack_timeout_retries (pos (r + n)) pm.message_id) (record pm { retry = pos (r + n) })
unfolding wait_for_ack_with_retry then_wait
wait_for_ack_with_retry-silence zero r pm c small quiet =
    ap (then_wait (λ p. waits p)) (silent_end pm quiet (ground (arith, c.0, c.1)))
    ∙ ap (λ x. failed (ack_timeout_retries x pm.message_id) (record pm { retry = x }))
        (c.0 ∙ ap pos (same_count r))
wait_for_ack_with_retry-silence (suc n) r pm c small quiet =
    let next : PendingMessage = record pm { retry = int64 (pm.retry +ℤ pos 1) } in
    let counted : next.retry ≡ pos (r + 1) =
      ap (λ x. int64 (x +ℤ pos 1)) c.0 ∙ one_more r (r + suc n) (omega arith) small in
    ap (then_wait (wait_for_ack_with_retry (silence (suc n))))
      (silent_retry pm quiet (ground (arith, c.0, c.1)))
    ∙ wait_for_ack_with_retry-silence n (r + 1) next (counted, c.1 ∙ ap pos (sym (regroup r n)))
        (omega arith) quiet
    ∙ ap (λ x. failed (ack_timeout_retries (pos x) pm.message_id) (record pm { retry = pos x }))
        (regroup r n)
