-- ===== src/PspClient/Race.antt =====
-- Two charges that overlap (`charge` of crates/mock-psp/src/main.rs): the lock is held for the lookup
-- and for the record, and the charge runs between the two.
use mathlib.Core.Path.{subst}
use invoice_payment_service.Prelude.{sym, ℕ, String, ◌≡◌, refl, Option, none, some, List}
use invoice_payment_service.Table.{find}
use invoice_payment_service.PspClient.{ChargeOutcome, Seen, seen_key, lookup, run_charge}
use invoice_payment_service.PspClient.MockCharge.{find-put}

-- `charge` behind its lookup, with what was found then, on the state as it is when the outcome is recorded.
abbrev pub answered :
    String
    → String
    → Option String
    → Option ChargeOutcome
    → List Seen
    → (ℕ × Option ChargeOutcome) × List Seen
answered psp_ref token key (some prev) t = ((200, some prev), t)
answered psp_ref token key none t = run_charge psp_ref token key t

-- Two requests that have both looked their key up, with the same result, before either has recorded.
abbrev after_lookups :
    (psp_ref psp_ref' token key : String)
    → Option ChargeOutcome
    → List Seen
    → ((ℕ × Option ChargeOutcome) × (ℕ × Option ChargeOutcome)) × List Seen
after_lookups psp_ref psp_ref' token key seen t =
    let (answer, t1) = answered psp_ref token (some key) seen t in
    let (answer', t2) = answered psp_ref' token (some key) seen t1 in ((answer, answer'), t2)

-- Two overlapping requests with one key.
unfoldable pub overlapping :
    (psp_ref psp_ref' token key : String)
    → List Seen
    → ((ℕ × Option ChargeOutcome) × (ℕ × Option ChargeOutcome)) × List Seen
unfolding run_charge
overlapping psp_ref psp_ref' token key t =
    after_lookups psp_ref psp_ref' token key (lookup (some key) t) t

not_seen :
    (key : String) (t : List Seen) → find (seen_key key) t ≡ none → lookup (some key) t ≡ none
not_seen key t fresh = rw (fresh, lookup) refl

-- Two overlapping charges with the token `tok_timeout` and a key that the provider does not know are
-- both made: the answers are the two new references, and the second one is recorded for the key.
pub overlapping_charges_twice :
    (psp_ref psp_ref' key : String) (t : List Seen)
    → find (seen_key key) t ≡ none
    → ((overlapping psp_ref psp_ref' "tok_timeout" key t).0 ≡ (
      (200, some (ChargeOutcome.succeeded psp_ref)),
      (200, some (ChargeOutcome.succeeded psp_ref')),
    ))
      × (find (seen_key key) (overlapping psp_ref psp_ref' "tok_timeout" key t).1
          ≡ some (record { key = key; outcome = ChargeOutcome.succeeded psp_ref' }))
unfolding overlapping run_charge
overlapping_charges_twice psp_ref psp_ref' key t fresh =
    subst
      (λ seen.
        let r = after_lookups psp_ref psp_ref' "tok_timeout" key seen t in
        (r.0 ≡ (
          (200, some (ChargeOutcome.succeeded psp_ref)),
          (200, some (ChargeOutcome.succeeded psp_ref')),
        ))
        × (find (seen_key key) r.1
            ≡ some (record { key = key; outcome = ChargeOutcome.succeeded psp_ref' })))
      (sym (not_seen key t fresh)) (refl, find-put key _ _)
