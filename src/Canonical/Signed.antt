-- ===== src/Canonical/Signed.antt =====
-- internal/protocol/protocol.go: the document that `Job.SignedPayload` builds, and what its canonical
-- text fixes.
use hostseal.Base.{String, ◌≡◌, refl, Bytes, codes, equal}
use hostseal.Json.{Json, null, text, object, Fields, end, field}
use hostseal.Policy.Time.{Time}
use hostseal.Agent.Job.{Payload}
use hostseal.Canonical.Order.{insert, members, before}
use hostseal.Canonical.Write.{write}
use hostseal.Canonical.Normal.{normal, normal_entries}
use hostseal.Canonical.RoundTrip.{write-injective}
use hostseal.Base.{ok}

-- The bytes of a Go string, and `Format(time.RFC3339)` of an instant in UTC.
pub record Texts : Type 0 where
  pub bytes : String → Bytes
  pub stamp : Time → Bytes

-- A nil map is signed as the empty one.
unfoldable pub or_empty : Json → Json
or_empty null = object end
or_empty v = v

unfoldable pub signed_document : Texts → Payload → Json
signed_document t p = object (
    field (codes "jobId") (text (t.bytes p.job_id)) (
      field (codes "hostId") (text (t.bytes p.host_id)) (
        field (codes "intent") (text (t.bytes p.intent)) (
          field (codes "params") (or_empty p.params) (
            field (codes "notBefore") (text (t.stamp p.not_before)) (
              field (codes "notAfter") (text (t.stamp p.not_after))
                (field (codes "nonce") (text (t.bytes p.nonce)) end)))))))

-- What the two payloads agree on.
pub record Same (t : Texts) (p q : Payload) : Type 0 where
  pub job_id : t.bytes p.job_id ≡ t.bytes q.job_id
  pub host_id : t.bytes p.host_id ≡ t.bytes q.host_id
  pub intent : t.bytes p.intent ≡ t.bytes q.intent
  pub params : normal (or_empty p.params) ≡ normal (or_empty q.params)
  pub not_before : t.stamp p.not_before ≡ t.stamp q.not_before
  pub not_after : t.stamp p.not_after ≡ t.stamp q.not_after
  pub nonce : t.bytes p.nonce ≡ t.bytes q.nonce

-- The document as it is written: its keys in their order.
sorted_document : Texts → Payload → Fields
sorted_document t p = field (codes "hostId") (text (t.bytes p.host_id)) (
    field (codes "intent") (text (t.bytes p.intent)) (
      field (codes "jobId") (text (t.bytes p.job_id)) (
        field (codes "nonce") (text (t.bytes p.nonce)) (
          field (codes "notAfter") (text (t.stamp p.not_after)) (
            field (codes "notBefore") (text (t.stamp p.not_before))
              (field (codes "params") (normal (or_empty p.params)) end))))))

normal-signed_document :
    (t : Texts) (p : Payload) → normal (signed_document t p) ≡ object (sorted_document t p)
unfolding signed_document normal members insert sorted_document normal_entries equal before
normal-signed_document t p = refl

-- Two payloads whose documents have one canonical text name the same job, host, operation and nonce,
-- byte by byte, the same window as it is printed, and parameters that hold the same members with the
-- same values: a signature over that text is a signature for nothing else.
pub signed_document-Same :
    (t : Texts) (p q : Payload) {s : Bytes}
    → write (signed_document t p) ≡ ok s
    → write (signed_document t q) ≡ ok s
    → Same t p q
unfolding sorted_document
signed_document-Same t p q h k =
    let e = write-injective (signed_document t p) (signed_document t q) h k in
    let f : object (sorted_document t p) ≡ object (sorted_document t q) =
      rw (normal-signed_document t p, normal-signed_document t q) at e in
    record {
      job_id = cc;
      host_id = cc;
      intent = cc;
      params = cc;
      not_before = cc;
      not_after = cc;
      nonce = cc;
    }
