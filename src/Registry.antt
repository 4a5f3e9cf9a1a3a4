-- ===== src/Registry.antt =====
-- The registries of ext/vulnsrc/driver.go, ext/vulnmdsrc/driver.go and ext/notification/driver.go: one
-- code for updaters, appenders and senders. What a mutex makes atomic is one step here.
pub mod Configured
use clair.Prelude.{
  Bytes, bytes_eq, Bool, true, false, Option, none, some, List, [], ◌∷◌, map, get, put, delete,
  is_empty, if◌then◌else◌, MapOrder, Outcome, ok, err, panic, hang,
}

abbrev pub Registry : Type 0 → Type 0
Registry A = List (Bytes × A)

module _ {A : Type 0} where
  abbrev pub add_new {ℓ} : {E : Type ℓ} → Option A → Bytes → A → Registry A → Outcome E (Registry A)
  add_new (some _) name a registry = panic
  add_new none name a registry = ok (put name a registry)

  -- RegisterUpdater, RegisterAppender and RegisterSender; a nil argument is `none`.
  unfoldable pub register {ℓ} :
      {E : Type ℓ} → Bytes → Option A → Registry A → Outcome E (Registry A)
  register name none registry = panic
  register name (some a) registry =
      if is_empty name then panic else add_new (get name registry) name a registry

  -- The copy that Updaters, Appenders and Senders return.
  unfoldable pub copy_into : List (Bytes × A) → Registry A → Registry A
  copy_into [] ret = ret
  copy_into ((k, v) ∷ entries) ret = copy_into entries (put k v ret)

  unfoldable pub registered : MapOrder → Registry A → Registry A
  unfolding copy_into
  registered o registry = copy_into (o.visit (Bytes × A) registry) []

  -- ListUpdaters.
  unfoldable pub list_names : MapOrder → Registry A → List Bytes
  list_names o registry = map (λ (x : Bytes × A). x.0) (o.visit (Bytes × A) registry)

  -- UnregisterSender.
  unfoldable pub unregister : Bytes → Registry A → Registry A
  unregister name registry = delete name registry

  -- The loop of RunNotifier over a copy of the senders: those that are not configured go.
  unfoldable pub configure : (A → Bool) → List (Bytes × A) → Registry A → Registry A
  unfolding unregister
  configure is_configured [] registry = registry
  configure is_configured ((name, a) ∷ entries) registry =
      configure is_configured entries
        (if is_configured a then registry else unregister name registry)
