-- ===== src/Net/Buffer/Tests.antt =====
-- Runs of the buffer, and the theorems at concrete inputs.
use myoj.Common.{List, ◌≡◌, refl, [], ◌∷◌}
use myoj.Common.Bytes.{codes}
use myoj.Net.Buffer.{
  make_buffer, contents, retrieve, retrieve_as_string, retrieve_all_as_string, append, read_fd,
  find_crlf, retrieve_until, ensure_writeable_bytes, copy_in, make_space,
}
use myoj.Net.Buffer.Contents.{IsValid}
use myoj.Net.Buffer.Refinement.{
  Call, retrieves, appends, reads, run, step, queue_run, queue_step, run-make_buffer,
}

buffer_code : Unit {0}
unfolding make_buffer retrieve retrieve_as_string retrieve_all_as_string append read_fd find_crlf
    retrieve_until ensure_writeable_bytes copy_in make_space run step queue_run queue_step
buffer_code = tt

abbrev calls : List Call
calls =
    appends (codes "GET /")
    ∷ retrieves 4
    ∷ reads (codes "index")
    ∷ appends (codes ".html HTTP")
    ∷ retrieves 3
    ∷ []

run-calls : contents (run (make_buffer 4) calls) ≡ codes "dex.html HTTP"
unfolding buffer_code
run-calls = refl

run-make_buffer_example :
    IsValid (run (make_buffer 4) calls)
    × (contents (run (make_buffer 4) calls) ≡ queue_run [] calls)
run-make_buffer_example = run-make_buffer 4 calls
