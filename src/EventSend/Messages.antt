-- ===== src/EventSend/Messages.antt =====
-- Which address `tcpSend` of door_controller/eventSend.c sends a message to.
use osdp_roger_acs.Base.{
  ℕ, ◌≡◌, ◌∙◌, refl, ap, inl, inr, arith, List, [], ◌∷◌, ◌++◌, Option, none, some,
}
use osdp_roger_acs.Base.{Bool-cases, Option-cases, true, ◌&&◌}
use osdp_roger_acs.EventSend.{Address, SendReturn, sent, failed, no_stream, send_to, tcp_send}

-- What an address says to a message.
pub record Takes (a : Address) (n : ℕ) : Type 0 where
  pub stream : a.is_stream ≡ true
  pub socket_opened : a.opens ≡ true
  pub connected : a.connects ≡ true
  pub sends_all : a.sends ≡ some n

abbrev pub AllRefuse : List Address → Type 0
AllRefuse [] = Unit
AllRefuse (a ∷ rest) = ((n : ℕ) → ¬ Takes a n) × AllRefuse rest

-- The first that takes it, and those before.
abbrev pub FirstTakes : List Address → ℕ → Type 0
FirstTakes addresses n =
    (before : List Address) × (a : Address) × (after : List Address) × (addresses
      ≡ before ++ a ∷ after)
    × Takes a n
    × AllRefuse before

later :
    (a : Address) (rest : List Address) (n : ℕ)
    → ((m : ℕ) → ¬ Takes a m)
    → FirstTakes rest n
    → FirstTakes (a ∷ rest) n
later a rest n refuses (before, b, after, e, takes, all) =
    (a ∷ before, b, after, ap (◌∷◌ a) e, takes, (refuses, all))

abbrev is_sent : SendReturn → Option ℕ
is_sent (sent n) = some n
is_sent _ = none

send_to-first :
    (addresses : List Address) (ret : SendReturn) (n : ℕ)
    → is_sent ret ≡ none
    → is_sent (send_to addresses ret) ≡ some n
    → FirstTakes addresses n
unfolding send_to
send_to-first [] ret n h e = absurd (ground (arith, h, e))
send_to-first (a ∷ rest) ret n h e = elim (Bool-cases a.is_stream) [
  | inr f ↦
      later a rest n (λ m t. ground (arith, t.stream)) (send_to-first rest ret n h (rw f at e))
  | inl f ↦ elim (Bool-cases (a.opens && a.connects)) [
    | inr g ↦
        later a rest n (λ m t. ground (arith, t.socket_opened, t.connected))
          (send_to-first rest failed n refl (rw g at (rw f at e)))
    | inl g ↦ elim (Option-cases a.sends) [
      | inl s ↦
          later a rest n (λ m t. ground (arith, t.sends_all))
            (send_to-first rest failed n refl (rw s at (rw g at (rw f at e))))
      | inr (m, s) ↦
          let same : some m ≡ some n = rw s at (rw g at (rw f at e)) in
          (
            [],
            a,
            rest,
            refl,
            record {
              stream = f;
              socket_opened = ground arith;
              connected = ground arith;
              sends_all = s ∙ same;
            },
            tt,
          )
    ]
  ]
]

-- A message goes to the first address that takes it: if `tcpSend` returns what `send` returned, then
-- it came from an address that `socket`, `connect` and `send` all accepted, and none of the addresses
-- before it did.
pub tcp_send-first :
    (addresses : List Address) (n : ℕ) → tcp_send (some addresses) ≡ sent n → FirstTakes addresses n
unfolding tcp_send
tcp_send-first addresses n h = send_to-first addresses no_stream n refl (ap is_sent h)
