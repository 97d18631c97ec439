-- ===== src/Billing/Access/Current.antt =====
-- Billing/Access: after the payer's version is raised, no answer of before is given again.
use drasken_labs_communicati.Prelude.{
  ℕ, suc, ◌≤◌, ◌≡◌, refl, ap, Text, Bool, true, List, [], ◌∷◌, Option, none, some, text_eq_refl,
  has_no, arith, All, get_elem?,
}
use drasken_labs_communicati.OrganisationSettings.{cache_version_for, version_owner}
use drasken_labs_communicati.OrganisationSettings.Versions.{cache_version_for-bump}
use drasken_labs_communicati.Billing.Access.{
  World, Call, Step, begins, ends, expires, writes, drops, bumps, step, run, read_key, call_key,
  finish_call, answer_from, has_access, grants, deciding, without, end_call,
  get_subscription_access, invalidate, invalidate_payer,
}
use drasken_labs_communicati.Billing.Access.Clear.{
  Unknown, IsClear, IsPlain, IsQuiet, IsClear-grows, step-IsQuiet, begins-IsClear,
}

module _ (org waba : Text) (plain_org : has_no b':' org ≡ true)
    (plain_waba : has_no b':' waba ≡ true) where
  run-IsQuiet :
      (b : ℕ) (steps : List Step) (world : World)
      → All IsQuiet steps
      → IsClear org waba b world
      → IsClear org waba b (run steps world)
  unfolding run
  run-IsQuiet b [] world quiet h = h
  run-IsQuiet b (s ∷ steps) world (q, qs) h =
      run-IsQuiet b steps (step s world) qs
        (step-IsQuiet org waba plain_org plain_waba b s world q h)

  -- A version never goes down.
  answer_from-settings :
      (cached : Option Bool) (call : Call) (now : ℕ) (world : World)
      → (answer_from cached call now world).1.settings ≡ world.settings
  unfolding answer_from
  answer_from-settings none call now world = refl
  answer_from-settings (some cached) call now world = refl

  end_call-settings :
      (o : Option Call) (n now : ℕ) (world : World)
      → (end_call o n now world).settings ≡ world.settings
  unfolding finish_call
  end_call-settings none n now world = refl
  end_call-settings (some call) n now world =
      answer_from-settings (get_subscription_access (call_key call) world.cache) call now
        (record world { calls = without n world.calls })

  step_grows :
      (s : Step) (world : World)
      → cache_version_for org world.settings ≤ cache_version_for org (step s world).settings
  unfolding step invalidate invalidate_payer
  step_grows (begins o w) world = omega arith
  step_grows (ends n now) world =
      omega (
        arith,
        ap (cache_version_for org) (end_call-settings (get_elem? world.calls n) n now world),
      )
  step_grows (expires key) world = omega arith
  step_grows (writes rows) world = omega arith
  step_grows (drops o w) world = omega arith
  step_grows (bumps payer) world = ground (arith, cache_version_for-bump payer org world.settings)

  run_grows :
      (steps : List Step) (world : World)
      → cache_version_for org world.settings ≤ cache_version_for org (run steps world).settings
  unfolding run
  run_grows [] world = omega arith
  run_grows (s ∷ steps) world = omega (arith, step_grows s world, run_grows steps (step s world))

  step_keeps :
      (s : Step) (world : World)
      → IsPlain s
      → IsClear org waba (suc (cache_version_for org world.settings)) world
      → IsClear org waba (suc (cache_version_for org world.settings)) (step s world)
  unfolding IsPlain IsQuiet
  step_keeps (begins o w) world (p, q) h =
      begins-IsClear org waba plain_org plain_waba (suc (cache_version_for org world.settings)) o w
        world p q (omega arith) h
  step_keeps (ends n now) world plain h =
      step-IsQuiet org waba plain_org plain_waba (suc (cache_version_for org world.settings))
        (ends n now) world tt h
  step_keeps (expires key) world plain h =
      step-IsQuiet org waba plain_org plain_waba (suc (cache_version_for org world.settings))
        (expires key) world tt h
  step_keeps (writes rows) world plain h =
      step-IsQuiet org waba plain_org plain_waba (suc (cache_version_for org world.settings))
        (writes rows) world tt h
  step_keeps (drops o w) world plain h =
      step-IsQuiet org waba plain_org plain_waba (suc (cache_version_for org world.settings))
        (drops o w) world tt h
  step_keeps (bumps payer) world plain h =
      step-IsQuiet org waba plain_org plain_waba (suc (cache_version_for org world.settings))
        (bumps payer) world tt h

  -- In any run no answer is cached for a version that is still to come.
  run_keeps :
      (steps : List Step) (world : World)
      → All IsPlain steps
      → IsClear org waba (suc (cache_version_for org world.settings)) world
      → IsClear org waba (suc (cache_version_for org (run steps world).settings)) (run steps world)
  unfolding run
  run_keeps [] world plain h = h
  run_keeps (s ∷ steps) world (p, ps) h =
      let after = step s world in
      run_keeps steps after ps (
        IsClear-grows org waba plain_org plain_waba (suc (cache_version_for org world.settings))
          (suc (cache_version_for org after.settings)) after (omega (arith, step_grows s world))
          (step_keeps s world p h))

  answer_when_unknown :
      (b now : ℕ) (world : World)
      → b ≤ cache_version_for org world.settings
      → IsClear org waba b world
      → (has_access org waba now world).0
        ≡ grants (deciding org waba world.settings world.subscriptions) now
  unfolding has_access finish_call IsClear Unknown get_subscription_access answer_from
  answer_when_unknown b now world le (h, hs) = rw (h (cache_version_for org world.settings) le) refl

-- Start with nothing cached and no call under way, and let calls begin and end in any order, keys
-- expire and be dropped, subscriptions change and versions be raised, all for ids without a colon.
-- Raise the version of the organisation that answers for another. However the calls that had begun
-- end then, and whatever changes but that none begins, the next call for the other organisation is
-- answered by the subscriptions as they are, and never by an answer of before.
pub has_access-bump :
    (org waba payer : Text) (before after : List Step) (world : World) (now : ℕ)
    → has_no b':' org ≡ true
    → has_no b':' waba ≡ true
    → world.cache ≡ []
    → world.calls ≡ []
    → All IsPlain before
    → payer ≡ version_owner org (run before world).settings
    → All IsQuiet after
    → (has_access org waba now (run after (invalidate_payer payer (run before world)))).0
      ≡ grants
          (deciding org waba
            (run after (invalidate_payer payer (run before world))).settings
            (run after (invalidate_payer payer (run before world))).subscriptions)
          now
unfolding IsClear Unknown invalidate_payer read_key
has_access-bump org waba payer before after world now o w empty idle plain owner quiet =
    let middle = run before world in
    let bumped = invalidate_payer payer middle in
    let start : IsClear org waba (suc (cache_version_for org world.settings)) world =
      (rw empty (λ v above. refl), rw idle tt) in
    let old = run_keeps org waba o w before world plain start in
    let raised : cache_version_for org bumped.settings
        ≡ suc (cache_version_for org middle.settings) =
      ground (arith, cache_version_for-bump payer org middle.settings, text_eq_refl payer) in
    answer_when_unknown org waba o w (suc (cache_version_for org middle.settings)) now
      (run after bumped) (omega (arith, run_grows org waba o w after bumped))
      (run-IsQuiet org waba o w (suc (cache_version_for org middle.settings)) after bumped quiet
        old)
