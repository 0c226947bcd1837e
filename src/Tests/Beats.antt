-- ===== src/Tests/Beats.antt =====
-- Heartbeats of one host.
use hostseal.Base.{
  ◌≡◌, ◌≢◌, ◌∙◌, ap, refl, true, false, some, inl, [], ◌∷◌, Bytes, String, codes, equal, ok,
  if◌then◌else◌, ◌+◌,
}
use hostseal.Server.Heartbeat.{decoded_any}
use hostseal.Json.{parse_int64, number, text, array, object, nil, item, end, field}
use hostseal.Policy.Time.{minute}
use hostseal.Store.State.{Host}
use hostseal.Store.Jobs.{find_host, of_tenant}
use hostseal.Base.Assoc.{get}
use hostseal.Store.Machine.{fresh}
use hostseal.Canonical.Order.{members, insert, before}
use hostseal.Canonical.Strings.{write_char, write_chars, write_string, valid_utf8, quoted}
use hostseal.Canonical.Write.{write_number, looks_float, write_members, write}
use hostseal.Agent.Beat.{Documents}
use hostseal.Server.Beats.{unsent, unanswered, delivered, State, beat, beats}
use hostseal.Server.OneBeat.{Site}
use hostseal.Server.Settling.{beats-Settled}
use hostseal.Server.Unsettled.{in_pairs, beats-asked}
use hostseal.Tests.Stores.{web_one}
use hostseal.Tests.Policies.{sunday_at_one}

abbrev documents : Documents
documents = record {
  facts = object (field (codes "cpus") (number (codes "4")) end);
  policy = object (field (codes "source") (text (codes "p")) end);
  signers = array (item (object (field (codes "keyId") (text (codes "alice")) end)) nil);
  signer_entries = array (item (text (codes "k alice")) nil);
  paused = false;
}

-- A stand-in for SHA-256 that tells the one text from the others.
abbrev digest : Bytes → String
digest b = if equal b (codes "[\"k alice\"]") then "entries" else "documents"

-- A stand-in for `float64`: the first whole number that it cannot hold becomes its neighbour.
abbrev float : Bytes → Bytes
float s = if equal s (codes "9007199254740993") then codes "9007199254740992" else s

facts-kept : decoded_any float documents.facts ≡ documents.facts
unfolding decoded_any equal
facts-kept = refl

policy-kept : decoded_any float documents.policy ≡ documents.policy
unfolding decoded_any
policy-kept = refl

rounded : decoded_any float (number (codes "9007199254740993")) ≡ number (codes "9007199254740992")
unfolding decoded_any equal
rounded = refl

facts-write : write documents.facts ≡ ok (codes "{\"cpus\":4}")
unfolding write write_members members insert before equal write_string quoted write_chars write_char
    valid_utf8 write_number looks_float parse_int64
facts-write = refl

policy-write : write documents.policy ≡ ok (codes "{\"source\":\"p\"}")
unfolding write write_members members insert before equal write_string quoted write_chars write_char
    valid_utf8
policy-write = refl

signers-write : write documents.signers ≡ ok (codes "[{\"keyId\":\"alice\"}]")
unfolding write write_members members insert before equal write_string quoted write_chars write_char
    valid_utf8
signers-write = refl

entries-write : write documents.signer_entries ≡ ok (codes "[\"k alice\"]")
unfolding write write_members members insert before equal write_string quoted write_chars write_char
    valid_utf8
entries-write = refl

abbrev site : Site
site = record {
  digest = digest;
  float = float;
  t = "default";
  d = documents;
  bf = codes "{\"cpus\":4}";
  bp = codes "{\"source\":\"p\"}";
  bs = codes "[{\"keyId\":\"alice\"}]";
  be = codes "[\"k alice\"]";
  rf = codes "{\"cpus\":4}";
  rp = codes "{\"source\":\"p\"}";
  wf = facts-write;
  wp = policy-write;
  ws = signers-write;
  we = entries-write;
  wrf = ap write facts-kept ∙ facts-write;
  wrp = ap write policy-kept ∙ policy-write;
}

written : ◌≢◌ {A = String} "documents" ""
written e = cc

listed : ◌≢◌ {A = String} "entries" ""
listed e = cc

unlike : ◌≢◌ {A = String} "documents" "entries"
unlike e = cc

facts-digest : digest site.bf ≡ "documents"
unfolding equal
facts-digest = refl

policy-digest : digest site.bp ≡ "documents"
unfolding equal
policy-digest = refl

signers-digest : digest site.bs ≡ "documents"
unfolding equal
signers-digest = refl

entries-digest : digest site.be ≡ "entries"
unfolding equal
entries-digest = refl

abbrev started : State
started =
    (record (fresh []) { hosts = ("h1", record { host = web_one; tenant = "default" }) ∷ [] }, true)

known : find_host "default" "h1" started.0 ≡ some web_one
unfolding find_host of_tenant get
known = refl

beats-Settled_example :
    (h : Host) × (find_host "default" "h1"
        (beats digest float "default" "h1" documents (unsent ∷ []) (
          beat digest float "default" "h1" documents (delivered (sunday_at_one + minute)) (
            beats digest float "default" "h1" documents (unanswered (sunday_at_one + 30) ∷ []) (
              beat digest float "default" "h1" documents
                (delivered sunday_at_one)
                (beats digest float "default" "h1" documents [] started))))).0
      ≡ some h)
    × (h.facts_digest ≡ digest site.bf)
    × (digest h.facts ≡ digest site.bf)
    × (h.policy_digest ≡ digest site.bp)
    × (digest h.policy ≡ digest site.bp)
beats-Settled_example =
    beats-Settled site facts-kept policy-kept "h1" [] (unanswered (sunday_at_one + 30) ∷ [])
      (unsent ∷ []) sunday_at_one (sunday_at_one + minute) started (rw facts-digest written)
      (rw policy-digest written) (web_one, refl, known, (inl refl, inl refl))

beats-asked_example :
    (beats digest float "default" "h1" documents
      (in_pairs ((sunday_at_one, sunday_at_one + minute) ∷ []))
      started).1
    ≡ true
beats-asked_example =
    beats-asked site "h1" ((sunday_at_one, sunday_at_one + minute) ∷ []) started
      (rw entries-digest listed) (rw (signers-digest, entries-digest) unlike) (web_one, refl, known)
      refl
