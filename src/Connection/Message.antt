-- ===== src/Connection/Message.antt =====
-- About `vsecplat_deal_policy` of msg_comm.c.
use vsecplat.Common.{ℕ, ◌+◌, ◌-◌, ◌^◌, ◌≤◌, ◌<◌, Bool, true, false, List, Option, none, some}
use vsecplat.Common.{◌≡◌, refl, sym, ◌∙◌, ap, subst, arith, ltb, ◌==◌, ◌&&◌, length, ℤ, pos}
use vsecplat.Common.Run.{Run, ok, Returns}
use vsecplat.Policy.Text.{Str}
use vsecplat.Policy.Dispatch.{Engine}
use vsecplat.Policy.Load.{parse_policy_text, create_policy_response}
use vsecplat.Json.Parse.Number.{FloatOps}
use vsecplat.Threads.Master.{ThreadMaster, thread_add_read}
use vsecplat.Connection.{
  PolicyConn, Bytes, nm_recv_buf_len, write_at, read_at, clear_at, int_at, int_bytes, Server,
  received, Dealt, head_len, out, answer, nm_msg_rules, deal_message, vsecplat_deal_policy,
}
use vsecplat.Connection.Buffer.{
  IsAt, IsAt-same, write_at_before, write_at_behind, write_at-IsAt, read_at_lem, text_at_lem,
  clear_at_before, clear_at_inside,
}
use vsecplat.Connection.Sealed.{in_buffer, sealed, length-sealed, sealed_twice, crypt_data-Crypted}
use vsecplat.Connection.Framed.{
  framed, length-framed, int_at-int_bytes, IsText, framed_parts, reply-IsAt,
}

-- The connection waits for a new message: no length, no offset, and the first bytes of the buffer, as
-- many as are given, are 0.
pub record IsReset (len : ℕ) (conn : PolicyConn) : Type 0 where
  pub no_len : conn.recv_len ≡ 0
  pub no_ofs : conn.recv_ofs ≡ 0
  pub cleared : (i : ℕ) → i < len → conn.policy_buf i ≡ 0

is_reset :
    (n len : ℕ) (buf : Bytes)
    → n ≤ len
    → IsReset n (record { recv_len = 0; recv_ofs = 0; policy_buf = clear_at 0 len buf })
is_reset n len buf low = record {
  no_len = refl;
  no_ofs = refl;
  cleared = λ i h. clear_at_inside 0 len buf i (omega arith) (omega arith);
}

module _ {F : Type 0} (ops : FloatOps F) (show_float : F → Str) (inet_aton : Str → Option ℕ)
    (addr : ℕ) where
  answer_lem :
      (fresh func sock : ℕ) (text : Str) (bytes : List ℕ) (result : ℤ) (e : Engine) (len : ℕ)
      (buf : Bytes) (s : Server)
      → len ≡ head_len + length text
      → head_len + len ≤ nm_recv_buf_len
      → head_len + length bytes ≤ nm_recv_buf_len
      → IsText text
      → IsAt buf 4 (int_bytes 1)
      → IsAt buf head_len (sealed s.isencrypted text)
      → buf (head_len + length text) ≡ 0
      → parse_policy_text ops show_float inet_aton addr text s.engine ≡ ok (e, result)
      → create_policy_response show_float result (pos 0) ≡ ok bytes
      → (buf' : Bytes) × (answer ops show_float inet_aton addr fresh func sock len buf s
          ≡ out fresh func sock len
              (some (framed s.isencrypted bytes))
              buf'
              (record s { engine = e }))
  unfolding answer
  answer_lem fresh func sock text bytes result e len buf s whole fits fits' plain kind here end read
        shown =
      let enc = s.isencrypted in
      let sealed_len = length-sealed enc text in
      let opened =
        crypt_data-Crypted enc (len - head_len) (sealed enc text) buf (omega (arith, sealed_len))
          (omega (arith, sealed_len)) here in
      let at_text =
        subst (λ t. IsAt opened.buffer head_len t) (sealed_twice enc text plain.bytes)
          opened.here in
      let nul = opened.behind (head_len + length text) (omega (arith, sealed_len)) ∙ end in
      let found =
        text_at_lem (nm_recv_buf_len - head_len) head_len text opened.buffer (omega arith)
          plain.plain at_text nul in
      let room = in_buffer (head_len + len) fits in
      let room' = in_buffer (head_len + length bytes) fits' in
      let cleared = clear_at head_len len opened.buffer in
      let filled = write_at head_len bytes cleared in
      let closed =
        crypt_data-Crypted enc (length bytes) bytes filled refl fits'
          (write_at-IsAt head_len bytes cleared) in
      let head_kept = λ (i : ℕ) (low : i < head_len).
        closed.before i low
        ∙ write_at_before head_len bytes cleared i low
        ∙ clear_at_before head_len len opened.buffer i low
        ∙ opened.before i low in
      let kind' =
        IsAt-same buf closed.buffer 4 (int_bytes 1) (λ i low high. head_kept i high) kind in
      let reply = reply-IsAt enc bytes closed.buffer kind' closed.here in
      let buf' = write_at 0 (int_bytes (length bytes + head_len)) closed.buffer in
      let long : length (framed enc bytes) ≡ length bytes + head_len =
        omega (arith, length-framed enc bytes) in
      let message : read_at 0 (length bytes + head_len) buf' ≡ framed enc bytes =
        subst (λ n. read_at 0 n buf' ≡ framed enc bytes) long
          (read_at_lem 0 (framed enc bytes) buf' reply) in
      (
        buf',
        rw opened.done (
            rw found (
              rw read (
                rw room (
                  rw shown (
                    rw room' (
                      rw closed.done (
                        ap (λ w. out fresh func sock len (some w) buf' (record s { engine = e }))
                          message))))))),
      )

  deal_message_answers :
      (fresh func sock : ℕ) (text : Str) (bytes : List ℕ) (result : ℤ) (e : Engine)
      (have len kind : ℕ) (buf : Bytes) (s : Server)
      → have ≡ head_len + length text
      → len ≡ head_len + length text
      → kind ≡ 1
      → head_len + length text ≤ 4096
      → head_len + length bytes ≤ nm_recv_buf_len
      → IsText text
      → IsAt buf 4 (int_bytes 1)
      → IsAt buf head_len (sealed s.isencrypted text)
      → buf (head_len + length text) ≡ 0
      → parse_policy_text ops show_float inet_aton addr text s.engine ≡ ok (e, result)
      → create_policy_response show_float result (pos 0) ≡ ok bytes
      → Returns
          (deal_message ops show_float inet_aton addr fresh func sock have len kind buf s)
          (λ d.
            (d.server.engine ≡ e)
            × (d.written ≡ some (framed s.isencrypted bytes))
            × (d.closed ≡ false)
            × IsReset (head_len + length text) d.server.conn
            × (d.server.master ≡ (thread_add_read fresh func 0 sock s.master).1))
  unfolding deal_message
  deal_message_answers fresh func sock text bytes result e have len kind buf s got whole rules one
        fits plain at_kind at_data end read shown =
      let (buf', done) =
        answer_lem fresh func sock text bytes result e len buf s whole (omega arith) fits plain
          at_kind at_data end read shown in
      let room = in_buffer len (omega arith) in
      rw (all_there have len (got ∙ sym whole)) (
        rw (is_rules kind rules) (
          rw done (rw room (_, refl, (refl, refl, refl, is_reset _ len buf' (omega arith), refl)))))
    where
      all_there : (have len : ℕ) → have ≡ len → (ltb len (2 ^ 31) && ltb have len) ≡ false
      all_there have len h = ground arith

      is_rules : (kind : ℕ) → kind ≡ 1 → (kind == nm_msg_rules) ≡ true
      is_rules kind h = ground arith

  deal_chunk :
      (fresh func sock : ℕ) (chunk : List ℕ) (s : Server)
      → ltb nm_recv_buf_len (s.conn.recv_ofs + length chunk) ≡ false
      → vsecplat_deal_policy ops show_float inet_aton addr fresh func sock (received chunk) s
        ≡ deal_message ops show_float inet_aton addr fresh func sock
            (s.conn.recv_ofs + length chunk)
            (int_at 0 (write_at s.conn.recv_ofs chunk s.conn.policy_buf))
            (int_at 4 (write_at s.conn.recv_ofs chunk s.conn.policy_buf))
            (write_at s.conn.recv_ofs chunk s.conn.policy_buf)
            s
  unfolding vsecplat_deal_policy
  deal_chunk fresh func sock chunk s room = rw room refl

  -- A message of rules that comes in one piece, encrypted or not as the daemon is set, to a connection
  -- with an empty buffer, is dealt with: the engine is the one that reading the text of the message
  -- gives, the answer is written with its length and encrypted likewise, the socket stays open and waits
  -- for the next message, and the connection is reset: its length and offset are 0, and so are as many
  -- of the first bytes of its buffer as the message had. The data are bytes without a NUL, the message has
  -- at most 4096 bytes, and the answer fits into the buffer.
  pub vsecplat_deal_policy_answers :
      (fresh func sock : ℕ) (text : Str) (bytes : List ℕ) (result : ℤ) (e e' : Engine) (buf : Bytes)
      (m : ThreadMaster) (enc : Bool)
      → ((i : ℕ) → buf i ≡ 0)
      → IsText text
      → head_len + length text ≤ 4096
      → parse_policy_text ops show_float inet_aton addr text e ≡ ok (e', result)
      → create_policy_response show_float result (pos 0) ≡ ok bytes
      → head_len + length bytes ≤ nm_recv_buf_len
      → Returns
          (vsecplat_deal_policy ops show_float inet_aton addr fresh func sock
            (received (framed enc text))
            (record {
              engine = e;
              conn = record { recv_len = 0; recv_ofs = 0; policy_buf = buf };
              master = m;
              isencrypted = enc;
            }))
          (λ d.
            (d.server.engine ≡ e')
            × (d.written ≡ some (framed enc bytes))
            × (d.closed ≡ false)
            × IsReset (head_len + length text) d.server.conn
            × (d.server.master ≡ (thread_add_read fresh func 0 sock m).1))
  unfolding vsecplat_deal_policy
  vsecplat_deal_policy_answers fresh func sock text bytes result e e' buf m enc blank plain one read
        shown fits =
      let s : Server = record {
        engine = e;
        conn = record { recv_len = 0; recv_ofs = 0; policy_buf = buf };
        master = m;
        isencrypted = enc;
      } in
      let size = length-framed enc text in
      let buf1 = write_at 0 (framed enc text) buf in
      let at = write_at-IsAt 0 (framed enc text) buf in
      let (at_len, at_kind, at_data) = framed_parts enc text buf1 at in
      let len = int_at-int_bytes 0 (head_len + length text) buf1 (omega arith) at_len in
      let kind = int_at-int_bytes 4 1 buf1 (omega arith) at_kind in
      let end =
        write_at_behind 0 (framed enc text) buf (head_len + length text) (omega (arith, size))
        ∙ blank _ in
      let have = 0 + length (framed enc text) in
      subst
        (λ (r : Run Dealt). Returns r (λ d.
          (d.server.engine ≡ e')
          × (d.written ≡ some (framed enc bytes))
          × (d.closed ≡ false)
          × IsReset (head_len + length text) d.server.conn
          × (d.server.master ≡ (thread_add_read fresh func 0 sock m).1)))
        (sym
          (deal_chunk fresh func sock (framed enc text) s (in_buffer have (omega (arith, size)))))
        (deal_message_answers fresh func sock text bytes result e' have (int_at 0 buf1)
          (int_at 4 buf1) buf1 s (omega (arith, size)) len kind one fits plain at_kind at_data end
          read shown)

  partial_message :
      (fresh func sock have len kind : ℕ) (buf : Bytes) (s : Server)
      → have < len
      → len ≤ nm_recv_buf_len
      → Returns
          (deal_message ops show_float inet_aton addr fresh func sock have len kind buf s)
          (λ d. (d.server.engine ≡ s.engine) × (d.written ≡ none) × IsReset len d.server.conn)
  unfolding deal_message
  partial_message fresh func sock have len kind buf s short fits =
      rw (missing have len short fits)
        (rw (in_buffer len fits) (_, refl, (refl, refl, is_reset len len buf (omega arith))))
    where
      missing :
          (have len : ℕ)
          → have < len
          → len ≤ nm_recv_buf_len
          → (ltb len (2 ^ 31) && ltb have len) ≡ true
      missing have len h g = ground arith

  -- Where a message states a length that is not read yet and not larger than the buffer, the part that was
  -- read is lost: the engine is as it was, nothing is answered, and the connection is reset, with length
  -- and offset 0 and with as many 0 bytes at the front of its buffer as the message states.
  pub vsecplat_deal_policy_partial :
      (fresh func sock : ℕ) (chunk : List ℕ) (s : Server)
      → let buf = write_at s.conn.recv_ofs chunk s.conn.policy_buf in
        s.conn.recv_ofs + length chunk < int_at 0 buf
        → int_at 0 buf ≤ nm_recv_buf_len
        → Returns
            (vsecplat_deal_policy ops show_float inet_aton addr fresh func sock (received chunk) s)
            (λ d.
              (d.server.engine ≡ s.engine)
              × (d.written ≡ none)
              × IsReset (int_at 0 buf) d.server.conn)
  vsecplat_deal_policy_partial fresh func sock chunk s short fits =
      let buf = write_at s.conn.recv_ofs chunk s.conn.policy_buf in
      let have = s.conn.recv_ofs + length chunk in
      subst
        (λ (r : Run Dealt). Returns r (λ d.
          (d.server.engine ≡ s.engine) × (d.written ≡ none) × IsReset (int_at 0 buf) d.server.conn))
        (sym (deal_chunk fresh func sock chunk s (in_buffer have (omega arith))))
        (partial_message fresh func sock have (int_at 0 buf) (int_at 4 buf) buf s short fits)
