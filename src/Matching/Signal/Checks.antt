-- ===== src/Matching/Signal/Checks.antt =====
-- handlers.ts: what a checked signal has.
use xrpl.Prelude.{
  ◌≡◌, refl, inl, inr, true, List, [], ◌∷◌, Option, none, some, arith, All, Option-cases, ◌≢◌,
}
use xrpl.Js.Text.{Text, lit, same_iff}
use xrpl.Js.Number.{Number, of_ℕ, is_finite, le, lt, is_nan}
use xrpl.Js.Json.{Json, num, str, property, as_text, as_list}
use xrpl.Base.Framework.{refuse}
use xrpl.Base.Flow.{next, ◌>>=◌, or_return}
use xrpl.Base.Flow.Ends.{Flow-cases}
use xrpl.Matching.OutcomeLog.{Direction, direction_text}
use xrpl.Matching.Signal.{
  FollowerAlloc, Signal, is_address, is_positive, if_address, check_follower, check_followers,
  check_targets, check_size, check_signal, direction_of,
}

abbrev IsTarget : FollowerAlloc → Type 0
IsTarget f = (is_address f.address ≡ true) × (is_positive f.allocation_bps ≡ true)

-- Targets that are the entries of a list, in its order.
pub data Reads : List Json → List FollowerAlloc → Type 0 where
  none_left : Reads [] []
  one_more :
      (v : Json) (vs : List Json) (f : FollowerAlloc) (fs : List FollowerAlloc)
      → property (lit "address") v ≡ some (str f.address)
      → property (lit "allocationBps") v ≡ some (num f.allocation_bps)
      → Reads vs fs
      → Reads (v ∷ vs) (f ∷ fs)

-- Where the targets come from: a list of followers that is not empty, or the recipient alone.
pub data Source (parsed : Json) (fs : List FollowerAlloc) : Type 0 where
  from_followers :
      (vs : List Json)
      → vs ≢ []
      → as_list (property (lit "followers") parsed) ≡ some vs
      → Reads vs fs
      → Source parsed fs
  from_recipient :
      (address : Text)
      → property (lit "recipient") parsed ≡ some (str address)
      → fs ≡ record { address = address; allocation_bps = of_ℕ 10000 } ∷ []
      → Source parsed fs

pub record IsChecked (parsed : Json) (s : Signal) : Type 0 where
  pub has_direction : property (lit "direction") parsed ≡ some (str (direction_text s.direction))
  pub has_size : property (lit "sizePct") parsed ≡ some (num s.size_pct)
  pub finite_size : is_finite s.size_pct ≡ true
  pub positive_size : is_positive s.size_pct ≡ true
  pub good_targets : All IsTarget s.targets
  pub source : Source parsed s.targets

check_follower-next :
    (v : Json) (f : FollowerAlloc)
    → check_follower v ≡ next f
    → (property (lit "address") v ≡ some (str f.address))
      × (property (lit "allocationBps") v ≡ some (num f.allocation_bps))
      × IsTarget f
unfolding check_follower
check_follower-next v f e = ground arith

check_followers-next :
    (vs : List Json) (fs : List FollowerAlloc)
    → check_followers vs ≡ next fs
    → Reads vs fs × All IsTarget fs
unfolding check_followers
check_followers-next [] fs e = let nil : fs ≡ [] = ground arith in rw nil (none_left, tt)
check_followers-next (v ∷ vs) fs e = elim (Flow-cases (check_follower v)) [
  | inr none_next ↦ absurd (grind (arith, none_next))
  | inl (f, is_f) ↦ elim (Flow-cases (check_followers vs)) [
    | inr none_next ↦ absurd (grind (arith, none_next))
    | inl (rest, is_rest) ↦
        let both : fs ≡ f ∷ rest = grind (arith, is_f, is_rest) in
        let (address, bps, target) = check_follower-next v f is_f in
        let (reads, targets) = check_followers-next vs rest is_rest in
        rw both (one_more v vs f rest address bps reads, (target, targets))
  ]
]

as_text-some : (o : Option Json) (t : Text) → as_text o ≡ some t → o ≡ some (str t)
as_text-some o t e = ground arith

direction_of-text :
    (t : Text) (d : Direction) → direction_of (some t) ≡ some d → t ≡ direction_text d
direction_of-text t d e = ground (arith, same_iff t (lit "BUY"), same_iff t (lit "SELL"))

direction_of-some :
    (o : Option Json) (d : Direction)
    → direction_of (as_text o) ≡ some d
    → o ≡ some (str (direction_text d))
direction_of-some o d e = elim (Option-cases (as_text o)) [
  | inl missing ↦ absurd (grind (arith, missing))
  | inr (t, is_t) ↦
      let named : direction_of (some t) ≡ some d = rw is_t at e in
      rw (direction_of-text t d named) at (as_text-some o t is_t)
]

check_size-next :
    (parsed : Json)
    → (x : Number) → check_size parsed ≡ next x
    → (property (lit "sizePct") parsed ≡ some (num x))
      × (is_finite x ≡ true)
      × (is_positive x ≡ true)
unfolding check_size
check_size-next parsed x e = ground arith

if_address-some :
    (o : Option Json) (t : Text)
    → if_address (as_text o) ≡ some t
    → (o ≡ some (str t)) × (is_address t ≡ true)
if_address-some o t e = ground arith

ten_thousand : is_positive (of_ℕ 10000) ≡ true
unfolding le lt is_nan
ten_thousand = refl

check_targets-next :
    (parsed : Json) (fs : List FollowerAlloc)
    → check_targets parsed ≡ next fs
    → All IsTarget fs × Source parsed fs
unfolding check_targets
check_targets-next parsed fs e = go (as_list (property (lit "followers") parsed)) refl e
  where
    alone :
        (o : Option Text)
        → if_address (as_text (property (lit "recipient") parsed)) ≡ o
        → (or_return o (refuse (lit "signal.recipient must be a 20-byte hex address string"))
            >>= λ t. next (record { address = t; allocation_bps = of_ℕ 10000 } ∷ []))
          ≡ next fs
        → All IsTarget fs × Source parsed fs
    alone none at p = absurd (ground arith)
    alone (some t) at p =
        let one : fs ≡ record { address = t; allocation_bps = of_ℕ 10000 } ∷ [] = ground arith in
        let (given, good) = if_address-some (property (lit "recipient") parsed) t at in
        (rw one ((good, ten_thousand), tt), from_recipient t given one)

    go :
        (o : Option (List Json))
        → as_list (property (lit "followers") parsed) ≡ o
        → (elim o [
          | some (f ∷ vs) ↦ check_followers (f ∷ vs)
          | _ ↦
              or_return
                (if_address (as_text (property (lit "recipient") parsed)))
                (refuse (lit "signal.recipient must be a 20-byte hex address string"))
              >>= λ t. next (record { address = t; allocation_bps = of_ℕ 10000 } ∷ [])
        ])
          ≡ next fs
        → All IsTarget fs × Source parsed fs
    go none at p = alone _ refl p
    go (some []) at p = alone _ refl p
    go (some (v ∷ vs)) at p =
        let (reads, targets) = check_followers-next (v ∷ vs) fs p in
        (targets, from_followers (v ∷ vs) (λ nil. ground arith) at reads)

-- A signal that passes the checks has the direction and the size that its object names, the size a
-- positive finite number. Each of its targets has an address of the right form and a positive
-- allocation, and they are the followers of the object in their order, or, where it lists none, the
-- recipient alone with the whole position.
pub check_signal-IsChecked :
    (parsed : Json) (s : Signal) → check_signal parsed ≡ next s → IsChecked parsed s
unfolding check_signal
check_signal-IsChecked parsed s e =
    elim (Option-cases (direction_of (as_text (property (lit "direction") parsed)))) [
      | inl missing ↦ absurd (grind (arith, missing))
      | inr (d, is_d) ↦ elim (Flow-cases (check_size parsed)) [
        | inr none_next ↦ absurd (grind (arith, none_next))
        | inl (x, is_x) ↦ elim (Flow-cases (check_targets parsed)) [
          | inr none_next ↦ absurd (grind (arith, none_next))
          | inl (fs, is_fs) ↦
              let is_s : s ≡ record { direction = d; size_pct = x; targets = fs } =
                grind (arith, is_d, is_x, is_fs) in
              let (size, is_finite_x, positive) = check_size-next parsed x is_x in
              let (targets, source) = check_targets-next parsed fs is_fs in
              rw is_s (record {
                has_direction = direction_of-some (property (lit "direction") parsed) d is_d;
                has_size = size;
                finite_size = is_finite_x;
                positive_size = positive;
                good_targets = targets;
                source = source;
              })
        ]
      ]
    ]
