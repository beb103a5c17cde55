-- ===== src/JobId/Tests.antt =====
-- Job ids at concrete inputs.
use paasta.Prelude.{◌≡◌, refl, none, some, codes, ok, raise, invalid_job_name, ◌>>=◌}
use paasta.JobId.{spacer, compose_job_id, decompose_job_id, format_job_id, deformat_job_id}
use paasta.JobId.RoundTrip.{Hashes, given, decompose-compose_job_id}

abbrev hashes : Hashes
hashes = given b'g' (codes "it1") b'c' (codes "fg2")

decompose-compose_job_id_example :
    (compose_job_id (codes "web") (codes "main") (some (codes "git1")) (some (codes "cfg2")) spacer
      >>= λ id. decompose_job_id id spacer)
    ≡ ok (codes "web", codes "main", some (codes "git1"), some (codes "cfg2"))
decompose-compose_job_id_example =
    decompose-compose_job_id (codes "web") (codes "main") hashes spacer refl refl (refl, refl)

-- A dash before an underscore is not restored.
dash_before_underscore :
    (format_job_id (codes "a-_b") (codes "main") none none >>= deformat_job_id)
    ≡ ok (codes "a_-b", codes "main", none, none)
unfolding format_job_id deformat_job_id
dash_before_underscore = refl

one_hash :
    compose_job_id (codes "a") (codes "b") (some (codes "g")) none spacer ≡ raise invalid_job_name
unfolding compose_job_id
one_hash = refl
