-- ===== src/Relayer/Pause/Safe.antt =====
-- pause-stale-matching-tee.ts: what has happened when the script returns, and what it ever pauses.
use xrpl.Prelude.{◌≡◌, ◌⊎◌, inl, inr, true, false, List, ◌∷◌}
use xrpl.Js.Text.{Text, lit, same}
use xrpl.Js.Outcome.{ok}
use xrpl.Js.Task.{Run}
use xrpl.Js.Task.Returns.{
  Returns, Returns-pure, Returns-raise, Returns-bind, Returns-test, Returns-lift, Returns-perform,
}
use xrpl.Relayer.Pause.{
  Machines, PauseAct, listed, paused, awaited, live_tee, stale_tee, has_machine, list_machines,
  check_after, pause_now, pause_if_stale, pause_stale,
}

-- The live machine was active and the stale one was not, and nothing was sent; or both were, the stale
-- one was paused, and of the machines that were active after that the live one is one and the stale
-- one is none.
abbrev pub HowPaused : List PauseAct → List PauseAct → Type 0
HowPaused before acts =
    (ids : List Text) × (has_machine live_tee ids ≡ true)
    × (((has_machine stale_tee ids ≡ false) × (acts ≡ listed (ok ids) ∷ before))
        ⊎ ((has_machine stale_tee ids ≡ true)
            × ((hash : Text) × (after_ids : List Text) × (has_machine stale_tee after_ids ≡ false)
                × (has_machine live_tee after_ids ≡ true)
                × (acts
                    ≡ listed (ok after_ids)
                      ∷ awaited hash
                      ∷ paused stale_tee
                      ∷ listed (ok ids)
                      ∷ before))))

module _ {W : Type 0} (h : Machines W) where
  check_after-Returns :
      (ids : List Text) (r s : Run W PauseAct)
      → Returns (check_after h ids) r tt s
      → (has_machine stale_tee ids ≡ false) × (has_machine live_tee ids ≡ true) × (r ≡ s)
  unfolding check_after
  check_after-Returns ids r s e = elim (Returns-test (has_machine stale_tee ids) e) [
    | inl (_, raised) ↦ absurd (Returns-raise _ raised)
    | inr (gone, e₁) ↦ elim (Returns-test (has_machine live_tee ids) e₁) [
      | inl (there, done) ↦ (gone, there, (Returns-pure done).1)
      | inr (_, raised) ↦ absurd (Returns-raise _ raised)
    ]
  ]

  -- A run of the script that returns has found the live machine active, and has paused the stale one
  -- exactly if that was active too; then it has seen the live one active and the stale one gone.
  pub pause_stale-HowPaused :
      (r s : Run W PauseAct) → Returns (pause_stale h) r tt s → HowPaused r.acts s.acts
  unfolding pause_stale pause_if_stale pause_now list_machines
  pause_stale-HowPaused r s e = Returns-bind e λ pk r₀ key e₀.
      let same_run = (Returns-lift _ key).1 in
      Returns-bind e₀ λ ids r₁ listed_it e₁.
        let acts₁ = Returns-perform _ _ listed_it in
        elim (Returns-test (has_machine live_tee ids) e₁) [
          | inr (_, raised) ↦ absurd (Returns-raise _ raised)
          | inl (alive, e₂) ↦ (
            ids,
            alive,
            elim (Returns-test (has_machine stale_tee ids) e₂) [
              | inr (gone, done) ↦
                  let end_run = (Returns-pure done).1 in inl (gone, cc (same_run, acts₁, end_run))
              | inl (stale, e₃) ↦ Returns-bind e₃ λ hash r₂ paused_it e₄.
                  Returns-bind e₄ λ status r₃ awaited_it e₅.
                    elim (Returns-test (same status (lit "success")) e₅) [
                      | inr (_, raised) ↦ absurd (Returns-raise _ raised)
                      | inl (_, e₆) ↦ Returns-bind e₆ λ after_ids r₄ listed_again e₇.
                          let (gone, there, end_run) = check_after-Returns after_ids r₄ s e₇ in
                          let acts₂ = Returns-perform _ _ paused_it in
                          let acts₃ = Returns-perform _ _ awaited_it in
                          let acts₄ = Returns-perform _ _ listed_again in
                          inr (
                            stale,
                            (
                              hash,
                              after_ids,
                              gone,
                              there,
                              cc (same_run, acts₁, acts₂, acts₃, acts₄, end_run),
                            ),
                          )
                    ]
            ],
          )
        ]
