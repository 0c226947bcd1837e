-- ===== src/Policy/Load.antt =====
-- internal/policy/policy.go: `LoadFrom` and `Parse`. The texts of errors are not kept.
use hostseal.Base.{
  ◌≡◌, refl, true, false, Option, none, some, List, [], ◌∷◌, Result, ok, err, Bytes,
}
use hostseal.Intent.Names.{privileged}
use hostseal.Intent.Catalogue.{Spec, lookup}
use hostseal.Policy.Rules.{
  Policy, Host, PolicyError, bad_toml, unknown_keys, unreadable, default, closed, validate,
}
use hostseal.Policy.Decide.{Request, Env, decide}
use hostseal.Policy.Sovereignty.{closed_refuses}

-- `toml.Decode` over a policy that holds the defaults: the policy, and the keys that no field took.
abbrev pub Decoder : Type 0
Decoder = Bytes → Policy → Option (Policy × List Bytes)

unfoldable pub validated : Result PolicyError Policy → Policy × Option PolicyError
validated (ok p) = (p, none)
validated (err e) = (closed, some e)

unfoldable pub checked : Host → Option (Policy × List Bytes) → Policy × Option PolicyError
unfolding validated
checked h none = (closed, some bad_toml)
checked h (some (p, k ∷ ks)) = (closed, some unknown_keys)
checked h (some (p, [])) = validated (validate h p)

unfoldable pub parse : Host → Decoder → Bytes → Policy × Option PolicyError
unfolding checked
parse h toml raw = checked h (toml raw default)

-- What `os.ReadFile` finds.
pub data File : Type 0 where
  absent : File
  unread : File
  contents : Bytes → File

pub data LoadError : Type 0 where
  no_policy_file : LoadError
  bad_policy : PolicyError → LoadError

unfoldable pub failed_with : Policy × Option PolicyError → Policy × Option LoadError
failed_with (p, none) = (p, none)
failed_with (p, some e) = (closed, some (bad_policy e))

unfoldable pub load_from : Host → Decoder → File → Policy × Option LoadError
unfolding failed_with
load_from h toml absent = (default, some no_policy_file)
load_from h toml unread = (closed, some (bad_policy unreadable))
load_from h toml (contents raw) = failed_with (parse h toml raw)

failed_with-closed :
    (r : Policy × Option PolicyError) {e : PolicyError}
    → (failed_with r).1 ≡ some (bad_policy e)
    → (failed_with r).0 ≡ closed
unfolding failed_with
failed_with-closed (p, none) h = cc
failed_with-closed (p, some e) h = refl

load_from-closed :
    (h : Host) (toml : Decoder) (f : File) {e : PolicyError}
    → (load_from h toml f).1 ≡ some (bad_policy e)
    → (load_from h toml f).0 ≡ closed
unfolding load_from
load_from-closed h toml absent k = cc
load_from-closed h toml unread k = refl
load_from-closed h toml (contents raw) k = failed_with-closed (parse h toml raw) k

-- If loading a policy file fails in any way but that there is no file, the policy it still returns
-- refuses every operation of the catalogue but those that only read, at any time.
pub load_from_refuses :
    (h : Host) (toml : Decoder) (f : File) (req : Request) (env : Env) {e : PolicyError} {s : Spec}
    → (load_from h toml f).1 ≡ some (bad_policy e)
    → lookup req.intent ≡ some s
    → privileged s.class ≡ true
    → (decide h (load_from h toml f).0 req env).allowed ≡ false
load_from_refuses h toml f req env k found priv =
    rw (load_from-closed h toml f k) (closed_refuses h req env found priv)
