-- ===== src/Relay/Responses/Order.antt =====
-- The backends answer in any order: without a 4xx the client's success does not depend on it.
use influxdb_relay.Base.{
  ◌/◌, ◌≡◌, ◌↔◌, ◌∙◌, sym, subst, refl, Bool, true, false, ◌||◌, Option, none, some, List, [], ◌∷◌,
  ◌==◌, All, arith, Bool-cases, inl, inr,
}
use influxdb_relay.Relay.Retry.{Response}
use influxdb_relay.Relay.Responses.{no_content, no_success, answer}
use influxdb_relay.Relay.Responses.Laws.{any_success, last_or, answer_any}
use mathlib.Core.Logic.{∥∥₁_elim}
use mathlib.Core.List.{Perm, Permᴰ}

or_left_comm : (x y z : Bool) → (x || (y || z)) ≡ (y || (x || z))
or_left_comm x y z = ground arith

any_success-permᴰ : {rs ss : List Response} → Permᴰ rs ss → any_success rs ≡ any_success ss
unfolding any_success
any_success-permᴰ Permᴰ.nil = refl
any_success-permᴰ (Permᴰ.cons e p) = rw (e, any_success-permᴰ p) refl
any_success-permᴰ (Permᴰ.swap {a'} {b'} {l} e f) =
    rw (e, f) (or_left_comm (b'.status_code / 100 == 2) (a'.status_code / 100 == 2) (any_success l))
any_success-permᴰ (Permᴰ.trans p q) = any_success-permᴰ p ∙ any_success-permᴰ q

abbrev pub NotClientError : Response → Type 0
NotClientError r = (r.status_code / 100 == 4) ≡ false

All-IsProp : (rs : List Response) → IsProp (All NotClientError rs)
All-IsProp [] = hlevel
All-IsProp (r ∷ rs) = hlevel (All-IsProp rs)

kept-permᴰ : {rs ss : List Response} → Permᴰ rs ss → All NotClientError rs → All NotClientError ss
kept-permᴰ Permᴰ.nil h = h
kept-permᴰ (Permᴰ.cons e p) h = (subst NotClientError e h.0, kept-permᴰ p h.1)
kept-permᴰ (Permᴰ.swap e f) h = (subst NotClientError f h.1.0, (subst NotClientError e h.0, h.1.1))
kept-permᴰ (Permᴰ.trans p q) h = kept-permᴰ q (kept-permᴰ p h)

no_success-ne : (o : Option Response) → no_success o ≡ no_content → ⊥
unfolding no_success
no_success-ne none e = cc
no_success-ne (some r) e = cc

picks :
    (rs : List Response)
    → All NotClientError rs
    → any_success rs ≡ false
    → answer rs ≡ no_success (last_or none rs)
picks rs h g = rw (answer_any rs h, g) refl

answer_success :
    (rs : List Response)
    → All NotClientError rs
    → (answer rs ≡ no_content) ↔ (any_success rs ≡ true)
answer_success rs h = elim (Bool-cases (any_success rs)) [
  | inl g ↦ (λ _. g, λ _. rw (answer_any rs h, g) refl)
  | inr g ↦
      (λ e. absurd (no_success-ne (last_or none rs) (sym (picks rs h g) ∙ e)), λ t. ground arith)
]

-- The relay's answers to the same responses in two orders, none of them a 4xx: one is 204 exactly if the
-- other is.
pub answer-perm :
    {rs ss : List Response}
    → Perm rs ss
    → All NotClientError rs
    → (answer rs ≡ no_content) ↔ (answer ss ≡ no_content)
answer-perm {rs} {ss} p h =
    let same : any_success rs ≡ any_success ss = ∥∥₁_elim p (hlevel) any_success-permᴰ in
    let kept : All NotClientError ss = ∥∥₁_elim p (All-IsProp ss) (λ q. kept-permᴰ q h) in
    let first = answer_success rs h in
    let second = answer_success ss kept in
    (λ e. second.1 (sym same ∙ first.0 e), λ e. first.1 (same ∙ second.0 e))
