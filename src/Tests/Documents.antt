-- ===== src/Tests/Documents.antt =====
-- internal/canonical on concrete documents.
use hostseal.Base.{suc, ◌≡◌, refl, some, [], ◌++◌, ok, Bytes, codes, equal, length}
use hostseal.Json.{
  Json, number, text, array, object, nil, item, end, field, digits_from, digits, parse_int64,
}
use hostseal.Agent.Job.{signed_payload}
use hostseal.Canonical.Order.{before, insert, members}
use hostseal.Canonical.Strings.{valid_utf8, write_char, write_chars, quoted, write_string}
use hostseal.Canonical.Write.{looks_float, integer, write_number, write_members, write}
use hostseal.Canonical.Reader.{read_value}
use hostseal.Canonical.Normal.{normal}
use hostseal.Canonical.RoundTrip.{read_value-write, write-injective}
use hostseal.Canonical.Signed.{Texts, Same, or_empty, signed_document, signed_document-Same}
use hostseal.Tests.Agents.{restart_job}

abbrev document : Json
document = object (
    field (codes "b") (array (item (number (codes "-12")) nil))
      (field (codes "a") (text (codes "x\"y")) (field (codes "b") (number (codes "7")) end)))

-- The keys in their order, the last value of a key, the quote escaped.
document-write : write document ≡ ok (codes "{\"a\":\"x\\\"y\",\"b\":7}")
unfolding write write_members members insert before equal write_string quoted write_chars write_char
    valid_utf8 write_number looks_float integer parse_int64 digits digits_from
document-write = refl

read_value-write_example :
    read_value
      (suc (length (codes "{\"a\":\"x\\\"y\",\"b\":7}")))
      (codes "{\"a\":\"x\\\"y\",\"b\":7}")
    ≡ some (normal document, [])
read_value-write_example = read_value-write document document-write

abbrev other : Json
other =
    object (field (codes "b") (number (codes "7")) (field (codes "a") (text (codes "x\"y")) end))

other-write : write other ≡ ok (codes "{\"a\":\"x\\\"y\",\"b\":7}")
unfolding write write_members members insert before equal write_string quoted write_chars write_char
    valid_utf8 write_number looks_float integer parse_int64 digits digits_from
other-write = refl

write-injective_example : normal document ≡ normal other
write-injective_example = write-injective document other document-write other-write

abbrev texts : Texts
texts = record { bytes = codes; stamp = λ t. codes "2026-08-23T01:00:00Z" }

abbrev signed_text : Bytes
signed_text =
    codes "{\"hostId\":\"h1\",\"intent\":\"service.restart\",\"jobId\":\"j1\",\"nonce\":\"n1\","
    ++ codes "\"notAfter\":\"2026-08-23T01:00:00Z\",\"notBefore\":\"2026-08-23T01:00:00Z\","
    ++ codes "\"params\":{\"unit\":\"nginx.service\"}}"

restart_job-write : write (signed_document texts (signed_payload restart_job "h1")) ≡ ok signed_text
unfolding write write_members members insert before equal write_string quoted write_chars write_char
    valid_utf8 signed_document or_empty
restart_job-write = refl

signed_document-Same_example :
    Same texts (signed_payload restart_job "h1") (signed_payload restart_job "h1")
signed_document-Same_example =
    signed_document-Same texts (signed_payload restart_job "h1") (signed_payload restart_job "h1")
      restart_job-write restart_job-write
