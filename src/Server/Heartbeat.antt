-- ===== src/Server/Heartbeat.antt =====
-- internal/server/agentapi.go: `handleHeartbeat` and `storeDocumentIfPresent`, behind the `decodeJSON`
-- of server.go. The pacing, the fields that are only shown and the comparison of units are not kept.
use hostseal.Base.{
  String, Bool, true, false, not, ◌&&◌, Option, none, some, Result, ok, err, str_eq, Bytes,
}
use hostseal.Json.{
  Json, null, boolean, number, text, array, object, Items, nil, item, Fields, end, field,
}
use hostseal.Policy.Time.{Time}
use hostseal.Canonical.Strings.{WriteError}
use hostseal.Canonical.Write.{write}
use hostseal.Store.State.{Tenant, Host, Memory, StoreError}
use hostseal.Store.Hosts.{record_heartbeat, store_facts, store_policy, store_signers}
use hostseal.Server.Jobs.{Refusal, internal}

pub record HeartbeatRequest : Type 0 where
  pub facts_digest : String
  pub policy_digest : String
  pub signers_digest : String
  pub paused : Bool
  pub facts : Option Json
  pub policy : Option Json
  pub signers : Option Json

-- What `decodeJSON` makes of a value that goes into an `any`: a number becomes a `float64`. `float` is
-- what `encoding/json` writes for the `float64` that it reads from a literal.
unfoldable mutual
  pub decoded_any : (Bytes → Bytes) → Json → Json
  decoded_any float null = null
  decoded_any float (boolean b) = boolean b
  decoded_any float (number s) = number (float s)
  decoded_any float (text s) = text s
  decoded_any float (array xs) = array (decoded_items float xs)
  decoded_any float (object fs) = object (decoded_fields float fs)

  pub decoded_items : (Bytes → Bytes) → Items → Items
  decoded_items float nil = nil
  decoded_items float (item x xs) = item (decoded_any float x) (decoded_items float xs)

  pub decoded_fields : (Bytes → Bytes) → Fields → Fields
  decoded_fields float end = end
  decoded_fields float (field k x fs) = field k (decoded_any float x) (decoded_fields float fs)

abbrev pub decoded_document : (Bytes → Bytes) → Option Json → Option Json
decoded_document float none = none
decoded_document float (some document) = some (decoded_any float document)

-- The request as the handler has it: the facts and the policy are of type `any`, the signers are not.
abbrev pub decoded_request : (Bytes → Bytes) → HeartbeatRequest → HeartbeatRequest
decoded_request float req = record req {
  facts = decoded_document float req.facts;
  policy = decoded_document float req.policy;
}

pub record HeartbeatResponse : Type 0 where
  pub want_full_report : Bool
  pub want_facts : Bool
  pub want_policy : Bool
  pub want_signers : Bool

pub data DocumentKind : Type 0 where
  facts_document policy_document signers_document : DocumentKind

-- `storeFn`
unfoldable pub store_fn :
    DocumentKind → Tenant → String → String → Bytes → Memory → Memory × Result StoreError (Unit {0})
store_fn facts_document = store_facts
store_fn policy_document = store_policy
store_fn signers_document = store_signers

-- A failure of the store is logged, like one of the encoding.
unfoldable pub store_encoded :
    (Bytes → String) → Tenant → String → DocumentKind → Result WriteError Bytes → Memory → Memory
unfolding store_fn
store_encoded digest t host kind (err e) m = m
store_encoded digest t host kind (ok encoded) m =
    (store_fn kind t host (digest encoded) encoded m).0

-- The digest is that of the document, whatever the host claimed. `digest` is SHA-256.
unfoldable pub store_document_if_present :
    (Bytes → String) → Tenant → String → DocumentKind → Option Json → Memory → Memory
unfolding store_encoded
store_document_if_present digest t host kind none m = m
store_document_if_present digest t host kind (some document) m =
    store_encoded digest t host kind (write document) m

abbrev pub is_absent : Option Json → Bool
is_absent none = true
is_absent (some _) = false

-- A claimed digest that is not the one held, without the document.
abbrev pub wants : String → String → Option Json → Bool
wants claimed held document =
    not (str_eq claimed "") && not (str_eq claimed held) && is_absent document

unfoldable pub response_to : Host → HeartbeatRequest → HeartbeatResponse
response_to h req =
    let facts = wants req.facts_digest h.facts_digest req.facts in
    let policy = wants req.policy_digest h.policy_digest req.policy in
    record {
      want_full_report = facts && policy;
      want_facts = facts;
      want_policy = policy;
      want_signers = wants req.signers_digest h.signers_digest req.signers;
    }

unfoldable pub keep_documents :
    (Bytes → String) → Tenant → String → HeartbeatRequest → Memory → Memory
unfolding store_document_if_present
keep_documents digest t host req m =
    store_document_if_present digest t host signers_document req.signers (
      store_document_if_present digest t host policy_document req.policy
        (store_document_if_present digest t host facts_document req.facts m))

unfoldable pub beat_recorded :
    (Bytes → String)
    → Tenant
    → Host
    → HeartbeatRequest
    → Memory × Result StoreError (Unit {0})
    → Memory × Result Refusal HeartbeatResponse
unfolding keep_documents response_to
beat_recorded digest t h req (m, err e) = (m, err internal)
beat_recorded digest t h req (m, ok u) =
    (keep_documents digest t h.id req m, ok (response_to h req))

-- The row of the host is the one that was read when it authenticated, before this heartbeat.
unfoldable pub handle_heartbeat :
    (Bytes → String)
    → Tenant
    → Host
    → HeartbeatRequest
    → Time
    → Memory
    → Memory × Result Refusal HeartbeatResponse
unfolding beat_recorded
handle_heartbeat digest t h req now m =
    beat_recorded digest t h req (record_heartbeat t h.id now req.paused m)
