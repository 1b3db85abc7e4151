-- ===== src/P9/Frame.antt =====
-- The header of the messages that src/c/p9.c builds.
use isiki.Prelude.{ℕ, ◌+◌, ◌%◌, ◌^◌, ◌≡◌, refl, ◌∙◌, List, [], ◌++◌, arith, length}
use isiki.P9.{
  Text, header_size, put_u8, put_u16, put_u32, put_u64, put_string, put_strings, get_u8, get_u16,
  get_u32, write_header, message, build_tversion, build_tattach, build_twalk, build_topen,
  build_tread, build_tclunk, build_twrite, build_tcreate,
}
use isiki.P9.Bytes.{get_u8-put_u8, get_u16-put_u16, get_u32-put_u32}

-- size[4] type[1] tag[2], where the size counts the whole message.
pub record IsFrame (type tag : ℕ) (msg : List ℕ) : Type 0 where
  pub size : get_u32 msg 0 ≡ length msg % 2 ^ 32
  pub type_field : get_u8 msg 4 ≡ type % 2 ^ 8
  pub tag_field : get_u16 msg 5 ≡ tag % 2 ^ 16

length-message :
    (type tag : ℕ) (body : List ℕ) → length (message type tag body) ≡ header_size + length body
unfolding message write_header put_u8 put_u16 put_u32
length-message type tag body = omega arith

message-IsFrame : (type tag : ℕ) (body : List ℕ) → IsFrame type tag (message type tag body)
unfolding message write_header put_u8 put_u16 put_u32
message-IsFrame type tag body =
    let total : ℕ = (header_size + length body) % 2 ^ 32 in
    record {
      size =
          get_u32-put_u32 [] (put_u8 type ++ (put_u16 tag ++ body)) 0 total refl
          ∙ omega (arith, length-message type tag body);
      type_field = get_u8-put_u8 (put_u32 total) (put_u16 tag ++ body) 4 type refl;
      tag_field = get_u16-put_u16 (put_u32 total ++ put_u8 type) body 5 tag refl;
    }

-- Each of the eight builders writes a header whose size is the length of the message, modulo 2^32,
-- with the message's type number and the tag given, modulo 2^16.
pub messages-IsFrame :
    (tag fid newfid offset count : ℕ) (name aname : Text) (wnames : List Text) (bytes : List ℕ)
    → IsFrame 100 tag (build_tversion tag count name)
      × IsFrame 104 tag (build_tattach tag fid newfid name aname count)
      × IsFrame 110 tag (build_twalk tag fid newfid wnames)
      × IsFrame 112 tag (build_topen tag fid count)
      × IsFrame 114 tag (build_tcreate tag fid name count offset)
      × IsFrame 116 tag (build_tread tag fid offset count)
      × IsFrame 118 tag (build_twrite tag fid offset bytes)
      × IsFrame 120 tag (build_tclunk tag fid)
unfolding build_tversion build_tattach build_twalk build_topen build_tcreate build_tread
    build_twrite build_tclunk
messages-IsFrame tag fid newfid offset count name aname wnames bytes = (
  message-IsFrame 100 tag (put_u32 count ++ put_string name),
  message-IsFrame 104 tag
      (put_u32 fid ++ (put_u32 newfid ++ (put_string name ++ (put_string aname ++ put_u32 count)))),
  message-IsFrame 110 tag
      (put_u32 fid ++ (put_u32 newfid ++ (put_u16 (length wnames) ++ put_strings wnames))),
  message-IsFrame 112 tag (put_u32 fid ++ put_u8 count),
  message-IsFrame 114 tag
      (put_u32 fid ++ (put_string name ++ (put_u32 count ++ (put_u8 offset ++ put_string [])))),
  message-IsFrame 116 tag (put_u32 fid ++ (put_u64 offset ++ put_u32 count)),
  message-IsFrame 118 tag (put_u32 fid ++ (put_u64 offset ++ (put_u32 (length bytes) ++ bytes))),
  message-IsFrame 120 tag (put_u32 fid),
)
