-- ===== src/Server/DebugNames/Bytes.antt =====
-- rpc_server.cpp: what a packet of `send_debug_names_to_ida` holds.
use reverse_engineearing.Base.{ℕ, ◌≡◌, refl, List, [], ◌∷◌, ◌++◌, of_bool, drop}
use reverse_engineearing.Wire.{pack_dd}
use reverse_engineearing.Codec.Fields.{appended, ea_bytes, str_bytes}
use reverse_engineearing.Server.DebugNames.{
  Names, is_backward, distance, shared_prefix, append_name,
}

-- The bytes of a name behind another.
unfoldable pub name_bytes : ℕ → List ℕ → ℕ × List ℕ → List ℕ
name_bytes old optr (ea, nptr) =
    ea_bytes (distance old ea)
    ++ pack_dd 5 (of_bool (is_backward old ea))
    ++ pack_dd 5 (shared_prefix nptr optr)
    ++ str_bytes (drop (shared_prefix nptr optr) nptr)

unfoldable pub names_bytes : ℕ → List ℕ → Names → List ℕ
unfolding name_bytes
names_bytes old optr [] = []
names_bytes old optr (p ∷ ps) = name_bytes old optr p ++ names_bytes p.0 p.1 ps

pub append_name-append :
    (buf : List ℕ) (old : ℕ) (optr : List ℕ) (p : ℕ × List ℕ)
    → append_name buf old optr p ≡ buf ++ name_bytes old optr p
unfolding append_name name_bytes
append_name-append buf old optr (ea, nptr) = simp appended refl
