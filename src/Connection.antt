-- ===== src/Connection.antt =====
-- The connection to the management platform: userspace/daemon/msg_comm.h, lines 6-33, and
-- userspace/daemon/msg_comm.c, lines 109-126 and 197-288. The daemon is compiled without
-- `NM_TEA_CRYPT`. An access outside of the buffer is a `fault`.
pub mod Buffer
pub mod Sealed
pub mod Framed
pub mod Message
use vsecplat.Common.{ℕ, zero, suc, ◌+◌, ◌-◌, ◌*◌, ◌/◌, ◌%◌, ◌^◌, Bool, true, false, List, [], ◌∷◌}
use vsecplat.Common.{Option, none, some, ltb, ◌==◌, ◌&&◌, if◌then◌else◌, ℤ, pos, negsuc, length}
use vsecplat.Common.Run.{Run, ok, fault, ◌>>=◌}
use vsecplat.Policy.Text.{Str}
use vsecplat.Policy.Dispatch.{Engine}
use vsecplat.Policy.Load.{parse_policy_text, create_policy_response}
use vsecplat.Json.Parse.Number.{FloatOps}
use vsecplat.Crypt.{nm_crypt}
use vsecplat.Threads.Master.{ThreadMaster, thread_add_read}

-- The bytes of a buffer, by their offsets.
abbrev pub Bytes : Type 0
Bytes = ℕ → ℕ

abbrev pub nm_recv_buf_len : ℕ
nm_recv_buf_len = 512 * 1024

abbrev pub write_at : ℕ → List ℕ → Bytes → Bytes
write_at ofs [] buf i = buf i
write_at ofs (x ∷ xs) buf i = if i == ofs then x else write_at (suc ofs) xs buf i

abbrev pub read_at : ℕ → ℕ → Bytes → List ℕ
read_at ofs zero buf = []
read_at ofs (suc n) buf = buf ofs ∷ read_at (suc ofs) n buf

-- `memset` with 0.
abbrev pub clear_at : ℕ → ℕ → Bytes → Bytes
clear_at ofs n buf i = if ltb i ofs then buf i else (if ltb i (ofs + n) then 0 else buf i)

-- The text at an offset, up to its NUL, which stands in the next bytes or not.
abbrev pub text_at : ℕ → ℕ → Bytes → Option Str
text_at zero ofs buf = none
text_at (suc n) ofs buf = elim (buf ofs == 0) [
  | true ↦ some []
  | false ↦ elim (text_at n (suc ofs) buf) [ none ↦ none | some s ↦ some (buf ofs ∷ s) ]
]

-- An `int` in memory.
abbrev pub int_at : ℕ → Bytes → ℕ
int_at ofs buf = buf ofs + buf (ofs + 1) * 2 ^ 8 + buf (ofs + 2) * 2 ^ 16 + buf (ofs + 3) * 2 ^ 24

abbrev pub int_bytes : ℕ → List ℕ
int_bytes n = n % 256 ∷ n / 2 ^ 8 % 256 ∷ n / 2 ^ 16 % 256 ∷ n / 2 ^ 24 % 256 ∷ []

-- `recv_len` as its 32 bits.
pub record PolicyConn : Type 0 where
  pub recv_len : ℕ
  pub recv_ofs : ℕ
  pub policy_buf : Bytes

unfoldable pub clean_policy_conn_desc : PolicyConn → PolicyConn
clean_policy_conn_desc conn = record {
  recv_len = 0;
  recv_ofs = 0;
  policy_buf = clear_at 0 nm_recv_buf_len conn.policy_buf;
}

pub record Server : Type 0 where
  pub engine : Engine
  pub conn : PolicyConn
  pub master : ThreadMaster
  pub isencrypted : Bool

-- What `read` gives: an end or an error, or the bytes, at most 4096.
pub data Incoming : Type 0 where
  ended : Incoming
  received : List ℕ → Incoming

-- The bytes that are written, whether the socket is closed, and the result.
pub record Dealt : Type 0 where
  pub server : Server
  pub written : Option (List ℕ)
  pub closed : Bool
  pub code : ℤ

abbrev pub head_len : ℕ
head_len = 8

abbrev pub nm_msg_rules : ℕ
nm_msg_rules = 1

-- Encryption and decryption of the data of the message, which share their body.
abbrev pub crypt_data : Bool → ℕ → Bytes → Run Bytes
crypt_data false len buf = ok buf
crypt_data true len buf =
    if ltb nm_recv_buf_len (head_len + len)
    then fault
    else ok (write_at head_len (nm_crypt len (read_at head_len len buf)) buf)

-- From the label `out` on, with the length of the message that was read.
abbrev pub out : ℕ → ℕ → ℕ → ℕ → Option (List ℕ) → Bytes → Server → Run Dealt
out fresh func sock len written buf s =
    if ltb nm_recv_buf_len len
    then fault
    else ok (record {
      server = record s {
        conn = record { recv_len = 0; recv_ofs = 0; policy_buf = clear_at 0 len buf };
        master = (thread_add_read fresh func 0 sock s.master).1;
      };
      written = written;
      closed = false;
      code = pos 0;
    })

-- A negative length is larger than the buffer, as `memset` takes it.
abbrev pub clear_data : ℕ → Bytes → Run Bytes
clear_data len buf =
    if ltb nm_recv_buf_len (head_len + len) then fault else ok (clear_at head_len len buf)

abbrev pub put_answer : List ℕ → Bytes → Run Bytes
put_answer bytes buf =
    if ltb nm_recv_buf_len (head_len + length bytes)
    then fault
    else ok (write_at head_len bytes buf)

abbrev pub the_text : Option Str → Run Str
the_text none = fault
the_text (some s) = ok s

module _ {F : Type 0} (ops : FloatOps F) (show_float : F → Str) (inet_aton : Str → Option ℕ)
    (addr : ℕ) where
  -- A message of rules: its text is read, and the answer takes its place in the buffer.
  unfoldable pub answer : ℕ → ℕ → ℕ → ℕ → Bytes → Server → Run Dealt
  answer fresh func sock len buf s = crypt_data s.isencrypted (len - head_len) buf >>= λ plain.
      the_text (text_at (nm_recv_buf_len - head_len) head_len plain) >>= λ text.
      parse_policy_text ops show_float inet_aton addr text s.engine >>= λ (e, result).
      clear_data len plain >>= λ cleared.
      create_policy_response show_float result (pos 0) >>= λ bytes.
      put_answer bytes cleared >>= λ filled.
      crypt_data s.isencrypted (length bytes) filled >>= λ sealed.
      (let resp_len = length bytes + head_len in
        let buf' = write_at 0 (int_bytes resp_len) sealed in
        out fresh func sock len (some (read_at 0 resp_len buf')) buf' (record s { engine = e }))

  -- The message, as far as it was read, with its length and its type.
  unfoldable pub deal_message : ℕ → ℕ → ℕ → ℕ → ℕ → ℕ → Bytes → Server → Run Dealt
  deal_message fresh func sock have len kind buf s =
      if ltb len (2 ^ 31) && ltb have len
      then out fresh func sock len none buf s
      else (if kind == nm_msg_rules
          then answer fresh func sock len buf s
          else out fresh func sock len none buf s)

  unfoldable pub vsecplat_deal_policy : ℕ → ℕ → ℕ → Incoming → Server → Run Dealt
  vsecplat_deal_policy fresh func sock ended s = ok (record {
    server = record s { conn = clean_policy_conn_desc s.conn };
    written = none;
    closed = true;
    code = negsuc 0;
  })
  vsecplat_deal_policy fresh func sock (received chunk) s =
      let have = s.conn.recv_ofs + length chunk in
      let buf = write_at s.conn.recv_ofs chunk s.conn.policy_buf in
      if ltb nm_recv_buf_len have
      then fault
      else deal_message fresh func sock have (int_at 0 buf) (int_at 4 buf) buf s

-- `accept` gives a socket or an error. The handlers are numbers.
unfoldable pub vsecplat_listen_func : ℕ → ℕ → ℕ → ℕ → ℕ → Option ℕ → ThreadMaster → ThreadMaster
vsecplat_listen_func fresh fresh' deal listen sock none m =
    (thread_add_read fresh' listen 0 sock m).1
vsecplat_listen_func fresh fresh' deal listen sock (some accept_sock) m =
    (thread_add_read fresh' listen 0 sock (thread_add_read fresh deal 0 accept_sock m).1).1
