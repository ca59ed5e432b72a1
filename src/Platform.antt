-- ===== src/Platform.antt =====
-- What wireproxy uses and this repository does not implement: the go-ini library, the addresses of
-- net/netip, and the process's environment and resolvers. Every operation may be any function.
use scramjet_app.Base.{Bool, Bytes, List, Option, Result, ℕ}
use scramjet_app.Base.Int.{ℤ}

-- A `*net.TCPAddr`.
pub record TcpAddr : Type 0 where
  pub ip : Bytes
  pub port : ℕ

pub record Platform : Type 1 where
  -- go-ini: files, sections and keys. The names are compared as `Insensitive` says.
  pub File : Type 0
  pub Section : Type 0
  pub Key : Type 0
  -- `ini.LoadSources`
  pub load_sources : Bytes → Result File
  -- `File.Section`
  pub section : File → Bytes → Section
  -- `File.GetSection`; `none` is an error
  pub get_section : File → Bytes → Option Section
  -- `File.SectionsByName`; `none` is an error
  pub sections_by_name : File → Bytes → Option (List Section)
  -- `Section.Key`; `none` is a nil pointer
  pub key : Section → Bytes → Option Key
  -- `Section.GetKey`; `none` is an error
  pub get_key : Section → Bytes → Option Key
  pub key_string : Key → Bytes
  pub key_int : Key → Result ℤ
  -- net/netip
  pub Addr : Type 0
  pub Prefix : Type 0
  pub parse_addr : Bytes → Result Addr
  pub parse_prefix : Bytes → Result Prefix
  pub prefix_addr : Prefix → Addr
  pub prefix_string : Prefix → Bytes
  pub addr_string : Addr → Bytes
  pub is4 : Addr → Bool
  pub is6 : Addr → Bool
  -- `os.LookupEnv`
  pub lookup_env : Bytes → Option Bytes
  -- `net.ResolveIPAddr("ip", …)`, as the text of the address
  pub resolve_ip_addr : Bytes → Result Bytes
  -- `net.ResolveTCPAddr("tcp", …)`
  pub resolve_tcp_addr : Bytes → Result TcpAddr
  -- `strings.ToLower` on text that is not ASCII
  pub lower_runes : Bytes → Bytes
