-- ===== src/Socket/Peers.antt =====
-- addr_compare and is_valid_peer of socket_server.cpp. The name service is not code of the repository:
-- what gethostbyaddr(), gethostname() and gethostbyname() answer is an argument.
use secure_e_fax.Prelude.{
  ℕ, zero, suc, ◌+◌, ◌-◌, ◌≡◌, ◌≢◌, refl, sym, ap, ◌∙◌, Bool, true, false, ◌&&◌, ◌||◌, List, [],
  ◌∷◌, ◌++◌, Option, none, some, arith, leb, ltb, ◌==◌, if◌then◌else◌, length, take, Bool-cases,
  inl, inr, ◌⊎◌,
}
pub mod Laws
use secure_e_fax.Text.{Bytes, codes, bytes_eq, bytes_eq→eq, bytes_eq_refl}

-- The characters of "0123456789.*".
is_pattern_char : ℕ → Bool
is_pattern_char c = (leb b'0' c && leb c b'9') || (c == b'.' || c == b'*')

unfoldable pub all_pattern_chars : Bytes → Bool
unfolding is_pattern_char
all_pattern_chars [] = true
all_pattern_chars (c ∷ s) = is_pattern_char c && all_pattern_chars s

-- The text ends with '*'; the empty text does not.
unfoldable pub ends_with_star : Bytes → Bool
ends_with_star [] = false
ends_with_star (c ∷ []) = c == b'*'
ends_with_star (c ∷ d ∷ s) = ends_with_star (d ∷ s)

-- The length without trailing '*' characters.
stem_length : Bytes → ℕ
stem_length [] = 0
stem_length (c ∷ s) = elim (stem_length s) [
  | zero ↦ if c == b'*' then 0 else 1
  | suc n ↦ suc (suc n)
]

-- SocketServer::addr_compare
unfoldable pub addr_compare : Bytes → Bytes → Bool
unfolding ends_with_star all_pattern_chars is_pattern_char stem_length
addr_compare [] in_str = false
addr_compare (c ∷ wild) in_str =
    let wild_str = c ∷ wild in
    let length = stem_length wild_str in
    if ends_with_star wild_str && all_pattern_chars wild_str
    then bytes_eq (take length wild_str) (take length in_str)
    else bytes_eq wild_str in_str

-- What the name service says of the peer: gethostbyaddr() fails, and the numeric address is known or
-- not; or it gives a name, its aliases and the addresses that inet_ntoa() could print.
pub data PeerInfo : Type 0 where
  unnamed : Option Bytes → PeerInfo
  named : Bytes → List Bytes → List Bytes → PeerInfo

-- And of this host: gethostname() and then gethostbyname() succeed or fail.
pub data HostInfo : Type 0 where
  no_hostname : HostInfo
  hostname : Bytes → Option Bytes → HostInfo

pub peer_names : PeerInfo → List Bytes
peer_names (unnamed none) = []
peer_names (unnamed (some address)) = address ∷ []
peer_names (named name aliases addresses) = name ∷ aliases ++ addresses

own_names : HostInfo → List Bytes
own_names no_hostname = []
own_names (hostname name none) = name ∷ []
own_names (hostname name (some full)) = name ∷ full ∷ []

pub valid_names : HostInfo → List Bytes → List Bytes
unfolding own_names
valid_names host permitted = codes "localhost" ∷ codes "127.0.0.1" ∷ (own_names host ++ permitted)

-- The inner loop, which ends at the first match.
matches_any : List Bytes → Bytes → Bool
matches_any [] peer = false
matches_any (valid ∷ valids) peer =
    let rest = matches_any valids peer in if addr_compare valid peer then true else rest

any_peer : List Bytes → List Bytes → Bool
any_peer valids [] = false
any_peer valids (peer ∷ peers) =
    let rest = any_peer valids peers in if matches_any valids peer then true else rest

-- SocketServer::is_valid_peer
unfoldable pub is_valid_peer : PeerInfo → HostInfo → List Bytes → Bool
unfolding peer_names valid_names any_peer matches_any addr_compare
is_valid_peer peer host permitted = any_peer (valid_names host permitted) (peer_names peer)
