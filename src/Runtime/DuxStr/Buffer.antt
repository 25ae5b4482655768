-- ===== src/Runtime/DuxStr/Buffer.antt =====
-- DuxStrBuf of src/runtime/str.c, a growing buffer of bytes. Its length is the number of its bytes;
-- `cap` is the capacity, in which a closing 0 has its place too.
use dux_lang.Prelude.{
  ℕ, zero, suc, ◌+◌, Option, none, some, [], ◌++◌, true, false, ltb, leb, nat_eq, length,
  if◌then◌else◌,
}
use dux_lang.Runtime.DuxStr.{
  Bytes, DuxStr, Attempt, made, undefined, out_of_fuel, ◌>>=◌, str_new, empty_str,
}

pub record DuxStrBuf : Type 0 where
  pub bytes : Bytes
  pub cap : ℕ

abbrev pub strbuf_init_cap : ℕ
strbuf_init_cap = 64

-- The loop of strbuf_grow: `nc` doubled until it is not below `need`.
unfoldable pub doubled : ℕ → ℕ → ℕ → Attempt ℕ
doubled zero nc need = if ltb nc need then out_of_fuel else made nc
doubled (suc k) nc need = elim (ltb nc need) [ true ↦ doubled k (nc + nc) need | false ↦ made nc ]

unfoldable pub strbuf_grow : DuxStrBuf → ℕ → Attempt DuxStrBuf
strbuf_grow b extra =
    let need = length b.bytes + extra + 1 in
    if leb need b.cap
    then made b
    else (doubled need (if nat_eq b.cap 0 then strbuf_init_cap else b.cap) need >>= λ nc.
        made (record b { cap = nc }))

unfoldable pub strbuf_new : DuxStrBuf
strbuf_new = record { bytes = []; cap = strbuf_init_cap }

-- The bytes and a closing 0 behind those of the buffer.
abbrev pub write_bytes : DuxStrBuf → Bytes → Attempt DuxStrBuf
write_bytes b bs =
    if leb (length b.bytes + length bs + 1) b.cap
    then made (record b { bytes = b.bytes ++ bs })
    else undefined

unfoldable pub strbuf_append_str : Option DuxStrBuf → Option DuxStr → Attempt (Option DuxStrBuf)
strbuf_append_str none s = made none
strbuf_append_str (some b) none = made (some b)
strbuf_append_str (some b) (some s) =
    if nat_eq (length s.bytes) 0
    then made (some b)
    else (strbuf_grow b (length s.bytes) >>= λ grown.
        write_bytes grown s.bytes >>= λ b'. made (some b'))

unfoldable pub strbuf_build : Option DuxStrBuf → Attempt DuxStr
strbuf_build none = empty_str
strbuf_build (some b) = str_new b.bytes
