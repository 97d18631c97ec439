-- ===== src/Billing/Access/Clear.antt =====
-- Billing/Access: which steps keep the answers for later versions out of the cache.
use drasken_labs_communicati.Prelude.{
  ℕ, zero, suc, ◌≤◌, ◌<◌, ◌≡◌, refl, sym, ap, ◌∙◌, ◌⊎◌, inl, inr, Text, Bool, true, false, List, [],
  ◌∷◌, Option, none, some, text_eq, text_eq_refl, text_eq_sound, has_no, arith, subst, Bool-cases,
  All, get_elem?,
}
use drasken_labs_communicati.OrganisationSettings.{cache_version_for}
use drasken_labs_communicati.Billing.Access.{
  World, Call, Step, begins, ends, expires, writes, drops, bumps, step, read_key, access_key, scope,
  call_key, finish_call, answer_from, grants, deciding, without, end_call, get_subscription_access,
  set_subscription_access, invalidate, invalidate_subscription_access, invalidate_payer,
}
use drasken_labs_communicati.Billing.Access.Keys.{scope-injective, read_key-delete_key}

-- No answer is cached for an organisation's account under a version from `bound` on.
unfoldable pub Unknown : Text → Text → ℕ → List (Text × Text) → Type 0
Unknown org waba bound cache =
    (v : ℕ) → bound ≤ v → read_key (access_key (scope org waba v)) cache ≡ none

-- A call under way has ids without a colon, and for the organisation a version under `bound`.
unfoldable pub IsOld : Text → ℕ → Call → Type 0
IsOld org bound call =
    (has_no b':' call.sso_org_id ≡ true)
    × (has_no b':' call.waba_id ≡ true)
    × ((text_eq call.sso_org_id org ≡ false) ⊎ (call.version < bound))

unfoldable pub IsClear : Text → Text → ℕ → World → Type 0
IsClear org waba bound world =
    Unknown org waba bound world.cache × All (IsOld org bound) world.calls

-- Ids have no colon.
unfoldable pub IsPlain : Step → Type 0
IsPlain (begins org waba) = (has_no b':' org ≡ true) × (has_no b':' waba ≡ true)
IsPlain (ends n now) = Unit
IsPlain (expires key) = Unit
IsPlain (writes rows) = Unit
IsPlain (drops org waba) = Unit
IsPlain (bumps payer) = Unit

-- A step other than a call's beginning.
unfoldable pub IsQuiet : Step → Type 0
IsQuiet (begins org waba) = ⊥
IsQuiet (ends n now) = Unit
IsQuiet (expires key) = Unit
IsQuiet (writes rows) = Unit
IsQuiet (drops org waba) = Unit
IsQuiet (bumps payer) = Unit

set-Unknown :
    (org waba : Text) (bound : ℕ) (call : Call) (allowed : Bool) (cache : List (Text × Text))
    → has_no b':' org ≡ true
    → has_no b':' waba ≡ true
    → IsOld org bound call
    → Unknown org waba bound cache
    → Unknown org waba bound (set_subscription_access (call_key call) allowed cache)
unfolding Unknown IsOld set_subscription_access read_key
set-Unknown org waba bound call allowed cache o w (p, q, old) h v above =
    elim (Bool-cases (text_eq (access_key (call_key call)) (access_key (scope org waba v)))) [
      | inl hit ↦
          let (same_org, same_waba, same_version) =
            scope-injective call.sso_org_id org call.waba_id waba call.version v p o q w
              (text_eq_sound (access_key (call_key call)) (access_key (scope org waba v)) hit) in
          let mine : text_eq call.sso_org_id org ≡ true =
            ap (λ k. text_eq k org) same_org ∙ text_eq_refl org in
          absurd (ground arith)
      | inr miss ↦ rw miss (h v above)
    ]

module _ (org waba : Text) (plain_org : has_no b':' org ≡ true)
    (plain_waba : has_no b':' waba ≡ true) where
  IsOld-grows :
      (b b' : ℕ) (calls : List Call) → b ≤ b' → All (IsOld org b) calls → All (IsOld org b') calls
  unfolding IsOld
  IsOld-grows b b' [] le h = tt
  IsOld-grows b b' (call ∷ calls) le ((p, q, inl other), hs) =
      ((p, q, inl other), IsOld-grows b b' calls le hs)
  IsOld-grows b b' (call ∷ calls) le ((p, q, inr old), hs) =
      ((p, q, inr (omega arith)), IsOld-grows b b' calls le hs)

  pub IsClear-grows :
      (b b' : ℕ) (world : World) → b ≤ b' → IsClear org waba b world → IsClear org waba b' world
  unfolding IsClear Unknown
  IsClear-grows b b' world le (h, hs) =
      ((λ v above. h v (omega arith)), IsOld-grows b b' world.calls le hs)

  without-All :
      (b n : ℕ) (calls : List Call) → All (IsOld org b) calls → All (IsOld org b) (without n calls)
  unfolding without
  without-All b n [] h = tt
  without-All b zero (call ∷ calls) (h, hs) = hs
  without-All b (suc n) (call ∷ calls) (h, hs) = (h, without-All b n calls hs)

  get_elem?-All :
      (b n : ℕ) (calls : List Call) (call : Call)
      → All (IsOld org b) calls
      → get_elem? calls n ≡ some call
      → IsOld org b call
  get_elem?-All b n [] call h e = cc
  get_elem?-All b zero (c ∷ calls) call (h, hs) e =
      let same : c ≡ call = ground arith in subst (IsOld org b) same h
  get_elem?-All b (suc n) (c ∷ calls) call (h, hs) e = get_elem?-All b n calls call hs e

  answer_from-IsClear :
      (b : ℕ) (cached : Option Bool) (call : Call) (now : ℕ) (world : World)
      → IsOld org b call
      → IsClear org waba b world
      → IsClear org waba b (answer_from cached call now world).1
  unfolding answer_from IsClear
  answer_from-IsClear b (some cached) call now world old h = h
  answer_from-IsClear b none call now world old (h, hs) = (
    set-Unknown org waba b call
        (grants (deciding call.sso_org_id call.waba_id world.settings world.subscriptions) now)
        world.cache plain_org plain_waba old h,
    hs,
  )

  end_call-IsClear :
      (b : ℕ) (o : Option Call) (n now : ℕ) (world : World)
      → get_elem? world.calls n ≡ o
      → IsClear org waba b world
      → IsClear org waba b (end_call o n now world)
  unfolding finish_call IsClear
  end_call-IsClear b none n now world e h = h
  end_call-IsClear b (some call) n now world e (h, hs) =
      answer_from-IsClear b (get_subscription_access (call_key call) world.cache) call now
        (record world { calls = without n world.calls }) (get_elem?-All b n world.calls call hs e)
        (h, without-All b n world.calls hs)

  -- Nothing but the beginning of a call makes an answer for a later version possible,
  pub step-IsQuiet :
      (b : ℕ) (s : Step) (world : World)
      → IsQuiet s
      → IsClear org waba b world
      → IsClear org waba b (step s world)
  unfolding step IsQuiet IsClear Unknown invalidate invalidate_payer invalidate_subscription_access
  step-IsQuiet b (begins o w) world quiet h = absurd quiet
  step-IsQuiet b (ends n now) world quiet h =
      end_call-IsClear b (get_elem? world.calls n) n now world refl h
  step-IsQuiet b (expires key) world quiet (h, hs) = (
    (λ v above. read_key-delete_key (access_key (scope org waba v)) key world.cache (h v above)),
    hs,
  )
  step-IsQuiet b (writes rows) world quiet h = h
  step-IsQuiet b (drops o w) world quiet (h, hs) = (
    (λ v above.
        read_key-delete_key (access_key (scope org waba v))
          (access_key (scope o w (cache_version_for o world.settings))) world.cache (h v above)),
    hs,
  )
  step-IsQuiet b (bumps payer) world quiet h = h

  -- and that makes one for the version as it is.
  pub begins-IsClear :
      (b : ℕ) (o w : Text) (world : World)
      → has_no b':' o ≡ true
      → has_no b':' w ≡ true
      → cache_version_for org world.settings < b
      → IsClear org waba b world
      → IsClear org waba b (step (begins o w) world)
  unfolding step IsClear IsOld
  begins-IsClear b o w world p q lt (h, hs) = elim (Bool-cases (text_eq o org)) [
    | inl hit ↦
        let same = text_eq_sound o org hit in
        (h, ((p, q, inr (subst (λ k. cache_version_for k world.settings < b) (sym same) lt)), hs))
    | inr miss ↦ (h, ((p, q, inl miss), hs))
  ]
