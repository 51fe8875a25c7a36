-- ===== src/Witness/Toys.antt =====
-- Concrete stand-ins for what the scripts call: a cipher, an operating system, a connection.
use cf_masque_opnsense.Prelude.{
  ℕ, zero, suc, ◌+◌, ◌%◌, ℤ, pos, ◌≡◌, refl, Bool, true, false, ◌&&◌, Option, none, some, [], ◌∷◌,
  arith, All, ltb, if◌then◌else◌, Bool-cases, inl, inr,
}
use cf_masque_opnsense.Text.{Text, codes}
use cf_masque_opnsense.Bytes.{Bytes, IsByte}
use cf_masque_opnsense.Config.{Connection}
use cf_masque_opnsense.Files.{Files, plain}
use cf_masque_opnsense.Secrets.{Crypto}
use cf_masque_opnsense.Secrets.Laws.{CryptoLaws}
use cf_masque_opnsense.Process.{
  Os, World, Signal, sigterm, sigkill, Delivery, delivered, no_such_process,
}

abbrev pub sum : Bytes → ℕ
sum [] = 0
sum (b ∷ bs) = b + sum bs

abbrev pub zeros : ℕ → Bytes
zeros zero = []
zeros (suc n) = 0 ∷ zeros n

abbrev pub all_bytes : Bytes → Bool
all_bytes [] = true
all_bytes (b ∷ bs) = ltb b 256 && all_bytes bs

abbrev pub plain_text : Bytes → Option Bytes
plain_text p = if all_bytes p then some p else none

-- A tag that is a checksum, and a cipher that changes nothing but refuses what is no byte.
abbrev pub toy_crypto : Crypto
toy_crypto = record {
  hmac = λ key message. (sum key + sum message) % 256 ∷ zeros 31;
  encrypt = λ key iv p. plain_text p;
  decrypt = λ key iv ct. some ct;
}

bytes_of_check : (p ct : Bytes) → plain_text p ≡ some ct → All IsByte ct
bytes_of_check p ct h = elim (Bool-cases (all_bytes p)) [
  | inl e ↦ let same : p ≡ ct = (let k = rw e at h in cc) in rw (← same) (bytes p e)
  | inr e ↦ let k = rw e at h in cc
]
  where
    bytes : (p : Bytes) → all_bytes p ≡ true → All IsByte p
    bytes [] e = tt
    bytes (b ∷ bs) e = (ground arith, bytes bs (ground arith))

plain_text-some :
    (p ct : Bytes) → plain_text p ≡ some ct → ◌≡◌ {A = Option Bytes} (some ct) (some p)
plain_text-some p ct h = elim (Bool-cases (all_bytes p)) [
  | inl e ↦ let k = rw e at h in cc
  | inr e ↦ let k = rw e at h in cc
]

pub toy_laws : CryptoLaws toy_crypto
toy_laws = record {
  hmac_length = λ key message. refl;
  hmac_bytes = λ key message. omega arith;
  encrypt_bytes = λ key iv p ct h. bytes_of_check p ct h;
  decrypt-encrypt = λ key iv p ct h. plain_text-some p ct h;
}

-- One process, which runs or not, ignores SIGTERM and dies of SIGKILL.
abbrev pub toy_probe : Bool → Delivery
toy_probe true = delivered
toy_probe false = no_such_process

abbrev pub toy_kill : Signal → World Bool → Delivery × World Bool
toy_kill sigterm w = (toy_probe w.sys, w)
toy_kill sigkill w = (toy_probe w.sys, record w { sys = false })

abbrev pub toy_poll : Bool → Option ℤ
toy_poll true = none
toy_poll false = some (pos 1)

abbrev pub toy_os : Os
toy_os = record {
  Sys = Bool;
  probe = λ pid s. toy_probe s;
  kill = λ signal pid w. toy_kill signal w;
  sleep = λ ms w. w;
  has_program = λ program s. true;
  run = λ command w. w;
  spawn = λ command w. (pos 42, record w { sys = true });
  poll = λ pid s. toy_poll s;
  etime = λ pid s. codes "00:07";
  terminated = λ s. false;
}

-- A registered WARP connection.
abbrev pub toy_connection : Connection
toy_connection = record {
  enabled = true;
  name = codes "office";
  description = [];
  organization_ref = [];
  protocol = codes "warp_masque";
  device_id = codes "d1";
  device_token_ref = [];
  device_name = [];
  client_ipv4 = codes "172.16.0.2";
  client_ipv6 = [];
  endpoint_v4 = codes "162.159.198.1";
  endpoint_v6 = [];
  endpoint_pubkey_ref = [];
  masque_privkey_ref = [];
  wg_privkey_ref = [];
  wg_pubkey = [];
  wg_peer_pubkey = [];
  wg_peer_port = pos 2408;
  tunnel_id = [];
  tunnel_token_ref = [];
  tunnel_mode = codes "split";
  use_ipv6 = false;
  prefer_ipv6 = false;
  mtu = pos 1280;
  bind_interface = [];
  reconnect_delay = pos 5;
  always_reconnect = true;
  http2_fallback = true;
  auto_rotate_keys = true;
  key_rotation_days = pos 30;
  last_key_rotation = [];
  registration_status = codes "enrolled";
}

abbrev pub toy_uuid : Text
toy_uuid = codes "0a"

-- A host identity, a pid file with a living pid and an interface that was left behind.
abbrev pub toy_files : Files
toy_files =
    (codes "/etc/hostid", record { content = plain (codes " host-1\n"); mode = 0o644 })
    ∷ (codes "/var/run/cfzt-warp-0a.pid", record { content = plain (codes "42\n"); mode = 0o644 })
    ∷ (codes "/var/run/cfzt-iface-0a", record { content = plain (codes "cfzt0"); mode = 0o644 })
    ∷ (codes "/usr/local/sbin/cfzt-warp", record { content = plain []; mode = 0o755 })
    ∷ []

abbrev pub toy_world : Bool → World Bool
toy_world running = record { files = toy_files; sys = running }

-- A system whose state is its clock, in milliseconds, and that nobody tells to stop.
abbrev pub clock_os : Os
clock_os = record {
  Sys = ℕ;
  probe = λ pid s. no_such_process;
  kill = λ signal pid w. (no_such_process, w);
  sleep = λ ms w. record w { sys = w.sys + ms };
  has_program = λ program s. true;
  run = λ command w. w;
  spawn = λ command w. (pos 42, w);
  poll = λ pid s. none;
  etime = λ pid s. [];
  terminated = λ s. false;
}
