-- ===== src/Billing/Access/Examples.antt =====
-- Runs of Billing/Access, and its theorem at a concrete input.
use drasken_labs_communicati.Prelude.{
  decimal_from, decimal, text_eq, ◌≡◌, refl, codes, true, false, [], ◌∷◌, none, some, List,
}
use drasken_labs_communicati.OrganisationSettings.{
  upsert, bump_payer_version, get, billing_org_for, cache_version_for, version_owner, Settings,
  defaults,
}
use drasken_labs_communicati.Billing.Access.{
  without, scope, read_key, set_subscription_access, get_subscription_access,
  organisation_subscription, account_subscription, from_payer, for_organisation, status_grants,
  answer_from, finish_call, step, Subscription, SubscriptionStatus, World, Step, begins, ends,
  writes, run, has_access, grants, deciding, invalidate_payer,
}
use drasken_labs_communicati.Billing.Access.Current.{has_access-bump}
use drasken_labs_communicati.Billing.Access.Clear.{IsQuiet, IsPlain}
use drasken_labs_communicati.Prelude.Table.{update_first, find_first}

abbrev client : Settings
client = record (defaults (codes "client")) { agency_org_id = some (codes "agency") }

abbrev plan_of : SubscriptionStatus → Subscription
plan_of status = record {
  waba_id = none;
  sso_org_id = codes "agency";
  status = status;
  current_end = none;
  created_at = 5;
}

abbrev at_first : World
at_first = record {
  settings = client ∷ [];
  subscriptions = plan_of SubscriptionStatus.active ∷ [];
  cache = [];
  calls = [];
}

-- Two calls begin; one ends before the agency's debit fails, the other after the version is raised.
abbrev earlier : List Step
earlier =
    begins (codes "client") (codes "waba")
    ∷ begins (codes "client") (codes "waba")
    ∷ ends 0 10
    ∷ writes (plan_of SubscriptionStatus.halted ∷ [])
    ∷ []

abbrev later : List Step
later = ends 0 11 ∷ []

abbrev after_the_bump : World
after_the_bump = run later (invalidate_payer (codes "agency") (run earlier at_first))

-- Before the version is raised, the answer of before is still given.
still_open : (has_access (codes "client") (codes "waba") 12 (run earlier at_first)).0 ≡ true
unfolding has_access run step finish_call answer_from grants status_grants deciding for_organisation
    from_payer account_subscription organisation_subscription get_subscription_access
    set_subscription_access read_key scope without invalidate_payer cache_version_for version_owner
    billing_org_for get bump_payer_version upsert find_first update_first text_eq decimal
    decimal_from
still_open = refl

closed : (has_access (codes "client") (codes "waba") 12 after_the_bump).0 ≡ false
unfolding has_access run step finish_call answer_from grants status_grants deciding for_organisation
    from_payer account_subscription organisation_subscription get_subscription_access
    set_subscription_access read_key scope without invalidate_payer cache_version_for version_owner
    billing_org_for get bump_payer_version upsert find_first update_first text_eq decimal
    decimal_from
closed = refl

has_access-bump_example :
    (has_access (codes "client") (codes "waba") 12 after_the_bump).0
    ≡ grants
        (deciding
          (codes "client")
          (codes "waba")
          after_the_bump.settings
          after_the_bump.subscriptions)
        12
unfolding IsPlain IsQuiet version_owner get find_first run step finish_call answer_from
    get_subscription_access read_key text_eq
has_access-bump_example =
    has_access-bump (codes "client") (codes "waba") (codes "agency") earlier later at_first 12 refl
      refl refl refl ((refl, refl), ((refl, refl), (tt, (tt, tt)))) refl (tt, tt)
