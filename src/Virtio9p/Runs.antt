-- ===== src/Virtio9p/Runs.antt =====
-- A small 9P server, runs of the client of src/c/virtio9p.c on it, and the theorems at this server.
use isiki.Prelude.{
  ℕ, ◌+◌, ◌%◌, ◌^◌, ◌≤◌, ◌<◌, ◌≡◌, refl, sym, ap, ◌∙◌, true, false, none, some, List, [], ◌++◌,
  arith, if◌then◌else◌, leb, length, ◌==◌, take, drop, replicate, codes, length-take, length-drop,
  take-append-drop,
}
use mathlib.Core.Path.{ap₂}
use isiki.P9.Bytes.{take_all}
use isiki.P9.{
  header_size, put_u8, put_u16, put_u32, put_u64, put_u64_loop, put_string, get_u8, get_u16,
  get_u32, write_header, message, build_tread, build_tclunk, parse_rread, parse_rclunk, check_error,
}
use isiki.P9.Bytes.{get_u32-put_u32, get_u32-put_u64}
use isiki.P9.Reply.{parse_rread_lem}
use isiki.Virtio9p.{
  Client, done, failed, null_write, open_file, create, load_file, p9_rpc, ask, stage_error,
  read_chunk, read_or_close, write_chunk, close, ensure_session,
}
use isiki.Virtio9p.Interface.{Transport, Received}
use isiki.Virtio9p.Rpc.{FileServer}
use isiki.Virtio9p.LoadFile.{load_file-FileServer}
use isiki.Virtio9p.Strings.{str_copy, str_append, max_path_components, split_path}
use isiki.Virtio9p.Path.{IsSplit, relative, split_path-IsSplit}
use isiki.Virtio9p.Session.{Established, OnDone, Keeps, ensure_session-Established}
use isiki.Virtio9p.Fids.{Fresh, fids-Fresh}
use isiki.Virtio9p.Errors.{p9_rpc_errors, read_or_close_null}

abbrev content : List ℕ
content = codes "(print 42)"

abbrev rread : List ℕ → List ℕ
rread bytes = message 117 0 (put_u32 (length bytes) ++ bytes)

-- The reply by the type of the request; a read is served from `content`.
abbrev served : List ℕ → List ℕ
served tx =
    let type = get_u8 tx 4 in
    if type == 116
    then rread (take (get_u32 tx 19) (drop (get_u32 tx 11) content))
    else if type == 100
    then message 101 0xffff (put_u32 8192 ++ put_string (codes "9P2000.u"))
    else if type == 110
    then message 111 0 (put_u16 (get_u16 tx 15))
    else message (type + 1) 0 (replicate 17 0)

-- Its state is the request to answer.
abbrev small_server : Transport
small_server = record {
  State = List ℕ;
  ensure_ready = λ s. (s, none);
  send = λ s tx. (tx, none);
  recv = λ s. (s, Received.received (served s) (length (served s)));
}

abbrev fresh_client : Client small_server
fresh_client = record { transport = []; session_ready = false; next_fid = 1 }

loads :
    (load_file small_server (codes "/src/init.lisp") 4 (some 96) fresh_client).1
    ≡ done (codes "(pri")
unfolding load_file
loads = refl

no_error_rread : (b : List ℕ) → check_error (rread b) (length (rread b)) 128 ≡ none
unfolding check_error message write_header put_u32 put_u8 put_u16
no_error_rread b = ground arith

length-rread : (b : List ℕ) → length (rread b) ≡ 11 + length b
unfolding message write_header put_u32 put_u8 put_u16
length-rread b = omega arith

count_of : (b : List ℕ) → length b < 2 ^ 31 → get_u32 (rread b) 7 ≡ length b
unfolding message write_header put_u8 put_u16 put_u32
count_of b h =
    get_u32-put_u32 (write_header ((header_size + length (put_u32 (length b) ++ b)) % 2 ^ 32) 117 0)
      b 7 (length b) refl
    ∙ omega arith

type_of : (b : List ℕ) → get_u8 (rread b) 4 ≡ 117
unfolding get_u8 message write_header put_u32 put_u8
type_of b = refl

body_of : (b : List ℕ) → b ≡ drop 11 (rread b)
unfolding message write_header put_u32 put_u8 put_u16
body_of b = refl

parsed_rread : (b : List ℕ) → length b < 2 ^ 31 → parse_rread (rread b) (length (rread b)) ≡ some b
parsed_rread b h =
    parse_rread_lem (rread b) (length (rread b)) (length b) b (type_of b) (count_of b h)
      (ap (λ (t : List ℕ). take (length b) t) (sym (body_of b))
        ∙ take_all b (length b) (omega arith))
      (omega arith)
    ∙ whole (11 + length b) (length (rread b)) (omega (arith, length-rread b))
  where
    whole : (m n : ℕ) → m ≤ n → (if leb m n then some b else none) ≡ some b
    whole m n k = ground arith

served_read :
    (fid offset want : ℕ)
    → offset < 2 ^ 32
    → want < 2 ^ 32
    → served (build_tread 0 fid offset want) ≡ rread (take want (drop offset content))
unfolding build_tread message write_header put_u8 put_u16 put_u32 put_u64 put_u64_loop get_u8
served_read fid offset want p q =
    ap₂ (λ (n m : ℕ). rread (take n (drop m content)))
      (get_u32-put_u32 (header ++ (put_u32 fid ++ put_u64 offset)) [] 19 want refl ∙ omega arith)
      (get_u32-put_u64 (header ++ put_u32 fid) (put_u32 want) 11 offset refl ∙ omega arith)
  where
    header : List ℕ
    header =
        write_header
          ((header_size + length (put_u32 fid ++ (put_u64 offset ++ put_u32 want))) % 2 ^ 32) 116 0

served_clunk :
    (fid : ℕ)
    → (check_error (served (build_tclunk 0 fid)) (length (served (build_tclunk 0 fid))) 128 ≡ none)
      × (parse_rclunk (served (build_tclunk 0 fid)) (length (served (build_tclunk 0 fid))) ≡ true)
unfolding build_tclunk check_error parse_rclunk message write_header put_u32 put_u8 put_u16 get_u8
served_clunk fid = (refl, refl)

drop_more :
    (xs : List ℕ) (want : ℕ) → 0 < want → length (take want xs) ≡ 0 → length (drop want xs) ≡ 0
drop_more xs want h e = omega (arith, length-take want xs, length-drop want xs)

file_server : (fid : ℕ) → FileServer small_server fid content
file_server fid = record {
  Serving = λ _. Unit;
  reads = λ s offset want _ p q.
      let bytes : List ℕ = take want (drop offset content) in
      let here : served (build_tread 0 fid offset want) ≡ rread bytes =
        served_read fid offset want (omega arith) q in
      let short : length bytes < 2 ^ 31 =
        omega (arith, length-take want (drop offset content), length-drop offset content) in
      (
        record {
          sent = refl;
          buf = rread bytes;
          len = length (rread bytes);
          got = ap (λ (b : List ℕ). Received.received b (length b)) here;
          no_error = no_error_rread bytes;
        },
        bytes,
        parsed_rread bytes short,
        record {
          within = omega (arith, length-take want (drop offset content));
          rest = drop want (drop offset content);
          here = take-append-drop want (drop offset content);
          progress = λ wanted none_read. drop_more (drop offset content) want wanted none_read;
        },
        tt,
      );
  closes = λ s _. (
    record {
      sent = refl;
      buf = served (build_tclunk 0 fid);
      len = length (served (build_tclunk 0 fid));
      got = refl;
      no_error = (served_clunk fid).0;
    },
    (served_clunk fid).1,
  );
}

-- A transport that answers nothing.
abbrev dead_server : Transport
dead_server = record {
  State = Unit {0};
  ensure_ready = λ s. (s, none);
  send = λ s tx. (s, some (codes "down"));
  recv = λ s. (s, Received.timed_out (codes "late"));
}

abbrev dead_client : Client dead_server
dead_client = record { transport = tt; session_ready = true; next_fid = 7 }

opened : Client small_server
opened = (open_file small_server (codes "/src/init.lisp") 0 (some 96) fresh_client).0

load_file-FileServer_example :
    (load_file small_server (codes "/src/init.lisp") 4 (some 96) fresh_client).1
    ≡ done (take 4 content)
unfolding opened open_file file_server
load_file-FileServer_example =
    load_file-FileServer small_server (codes "/src/init.lisp") 1 content (file_server 1) 4 (some 96)
      fresh_client opened (omega arith) refl tt

split_path-IsSplit_example :
    IsSplit max_path_components
      (relative (codes "/src/lisp/init.lisp"))
      (split_path (codes "/src/lisp/init.lisp"))
split_path-IsSplit_example = split_path-IsSplit (codes "/src/lisp/init.lisp")

ensure_session-Established_example :
    Established small_server 1 (ensure_session small_server (some 96) fresh_client)
    × (false ≡ true → ensure_session small_server (some 96) fresh_client ≡ (fresh_client, done tt))
ensure_session-Established_example = ensure_session-Established small_server (some 96) fresh_client

fids-Fresh_example :
    OnDone small_server
      (Fresh small_server fresh_client)
      (open_file small_server (codes "a/b") 0 (some 96) fresh_client)
    × OnDone small_server
        (Fresh small_server fresh_client)
        (create small_server (codes "a/b") 420 0 (some 96) fresh_client)
    × ((fid offset want : ℕ)
        → Keeps small_server (read_chunk small_server fid offset want (some 96)))
    × ((fid offset : ℕ) (bytes : List ℕ)
        → Keeps small_server (write_chunk small_server fid offset bytes (some 96)))
    × ((fid : ℕ) → Keeps small_server (close small_server fid (some 96)))
fids-Fresh_example = fids-Fresh small_server (codes "a/b") 420 0 (some 96) fresh_client

read_or_close_null_example : (read_or_close dead_server 1 0 16 (some 96) dead_client).1 ≡ null_write
unfolding read_chunk ask p9_rpc stage_error str_copy str_append
read_or_close_null_example =
    read_or_close_null dead_server dead_client dead_client 1 0 16 (some 96) (codes "Tread: down")
      (codes "down") refl refl

p9_rpc_errors_example :
    ((some (codes "down") ≡ some (codes "down"))
      → (p9_rpc dead_server [] (codes "Tread") (some 9) dead_client).1 ≡ failed (codes "Tread: d"))
    × ((some (codes "down") ≡ none)
        → (Received.timed_out (codes "late") ≡ Received.timed_out (codes "down"))
        → (p9_rpc dead_server [] (codes "Tread") (some 9) dead_client).1
          ≡ failed (codes "Tread: d"))
    × ((some (codes "down") ≡ none)
        → (Received.timed_out (codes "late") ≡ Received.received [] 0)
        → check_error [] 0 128 ≡ some (codes "down")
        → (p9_rpc dead_server [] (codes "Tread") (some 9) dead_client).1
          ≡ failed (codes "Tread: R"))
p9_rpc_errors_example =
    p9_rpc_errors dead_server dead_client [] (codes "Tread") (codes "down") 9 [] 0
