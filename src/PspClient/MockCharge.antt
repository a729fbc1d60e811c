-- ===== src/PspClient/MockCharge.antt =====
-- The idempotency of the mock provider (`charge` of crates/mock-psp/src/main.rs), for charges that
-- come one after the other.
use invoice_payment_service.Prelude.{
  String, ◌≡◌, ◌∙◌, ap, inl, inr, Option, none, some, List, [], ◌∷◌, arith, eq_refl, Bool-cases,
  Option-cases,
}
use invoice_payment_service.Table.{find}
use invoice_payment_service.PspClient.Mock.{ChargeRequest}
use invoice_payment_service.PspClient.{ChargeOutcome, Seen, seen_key, put, outcome_of, charge}

pub find-put :
    (key : String) (o : ChargeOutcome) (t : List Seen)
    → find (seen_key key) (put key o t) ≡ some (record { key = key; outcome = o })
unfolding find
find-put key o [] = ground (arith, eq_refl key)
find-put key o (s ∷ t) = ground (arith, eq_refl key, find-put key o t)

-- A charge that was answered with an outcome has recorded it.
recorded :
    (psp_ref token key : String) (t t' : List Seen) (o : ChargeOutcome)
    → charge psp_ref token (some key) t ≡ ((200, some o), t')
    → (s : Seen) × (find (seen_key key) t' ≡ some s) × (s.outcome ≡ o)
unfolding charge
recorded psp_ref token key t t' o h = elim (Option-cases (find (seen_key key) t)) [
  | inr (s, found) ↦ (s, ground arith, ground arith)
  | inl fresh ↦ elim (Option-cases (outcome_of psp_ref token)) [
    | inl refused ↦ absurd (ground arith)
    | inr (o', made) ↦
        (record { key = key; outcome = o' }, ground (arith, find-put key o' t), ground arith)
  ]
]

answers_recorded :
    (psp_ref token key : String) (t : List Seen) (s : Seen)
    → find (seen_key key) t ≡ some s
    → charge psp_ref token (some key) t ≡ ((200, some s.outcome), t)
unfolding charge
answers_recorded psp_ref token key t s found = ground arith

-- The next charge with the key gets the recorded outcome.
pub charge_idempotent :
    (psp_ref psp_ref' token token' key : String) (t t' : List Seen) (o : ChargeOutcome)
    → charge psp_ref token (some key) t ≡ ((200, some o), t')
    → charge psp_ref' token' (some key) t' ≡ ((200, some o), t')
charge_idempotent psp_ref psp_ref' token token' key t t' o h =
    let (s, found, same) = recorded psp_ref token key t t' o h in
    answers_recorded psp_ref' token' key t' s found ∙ ap (λ x. ((200, some x), t')) same

-- A new key is put behind the others.
find-put_new :
    (key key' : String) (o : ChargeOutcome) (t : List Seen) (s : Seen)
    → find (seen_key key') t ≡ none
    → find (seen_key key) t ≡ some s
    → find (seen_key key) (put key' o t) ≡ some s
unfolding find
find-put_new key key' o [] s fresh found = absurd cc
find-put_new key key' o (x ∷ t) s fresh found = elim (Bool-cases (seen_key key' x)) [
  | inl same ↦ absurd (ground arith)
  | inr other ↦ ground (arith, find-put_new key key' o t s)
]

charge_keeps :
    (psp_ref token : String) (given : Option String) (key : String) (t : List Seen) (s : Seen)
    → find (seen_key key) t ≡ some s
    → find (seen_key key) (charge psp_ref token given t).1 ≡ some s
unfolding charge
charge_keeps psp_ref token none key t s found = elim (Option-cases (outcome_of psp_ref token)) [
  | inl refused ↦ ground arith
  | inr (o, made) ↦ ground arith
]
charge_keeps psp_ref token (some key') key t s found =
    elim (Option-cases (find (seen_key key') t)) [
      | inr (old, there) ↦ ground arith
      | inl fresh ↦ elim (Option-cases (outcome_of psp_ref token)) [
        | inl refused ↦ ground arith
        | inr (o, made) ↦ ground (arith, find-put_new key key' o t s fresh found)
      ]
    ]

-- The record of the provider after requests that come one after the other, each with the reference that
-- is drawn for it.
abbrev pub served : List (String × ChargeRequest) → List Seen → List Seen
served [] t = t
served ((psp_ref, req) ∷ reqs) t =
    served reqs (charge psp_ref req.card_token req.idempotency_key t).1

served_keeps :
    (reqs : List (String × ChargeRequest)) (key : String) (t : List Seen) (s : Seen)
    → find (seen_key key) t ≡ some s
    → find (seen_key key) (served reqs t) ≡ some s
served_keeps [] key t s found = found
served_keeps ((psp_ref, req) ∷ reqs) key t s found =
    served_keeps reqs key _ s
      (charge_keeps psp_ref req.card_token req.idempotency_key key t s found)

-- Where charges come one after the other: a key that was answered with an outcome is answered with that
-- outcome again, after any number of charges with any keys, tokens and amounts in between and whatever
-- card token comes with it, and the record of the provider stays as it is.
pub outcome_for_good :
    (psp_ref psp_ref' token token' key : String) (reqs : List (String × ChargeRequest))
    (t t' : List Seen) (o : ChargeOutcome)
    → charge psp_ref token (some key) t ≡ ((200, some o), t')
    → charge psp_ref' token' (some key) (served reqs t') ≡ ((200, some o), served reqs t')
outcome_for_good psp_ref psp_ref' token token' key reqs t t' o h =
    let (s, found, same) = recorded psp_ref token key t t' o h in
    answers_recorded psp_ref' token' key (served reqs t') s (served_keeps reqs key t' s found)
    ∙ ap (λ x. ((200, some x), served reqs t')) same
