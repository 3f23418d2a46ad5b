-- ===== src/Pem.antt =====
-- pem.rs: the text form of DER.
pub mod Marker
pub mod Ascii
use net_tls.Prelude.{ℕ, zero, suc, ◌≡◌, refl, List, [], ◌∷◌, ◌++◌, length, take, drop}
use net_tls.Prelude.Text.{Str, Bytes, codes}
use net_tls.Host.{Host}

abbrev pub newline : Bytes
newline = 10 ∷ []

-- `for line in b64.chunks(64)`: a newline behind each 64 bytes, and behind what is left. The first
-- argument is the room in the current line.
unfoldable pub chunk_lines : ℕ → Bytes → Bytes
chunk_lines room [] = newline
chunk_lines zero (b ∷ bs) = 10 ∷ b ∷ chunk_lines 63 bs
chunk_lines (suc room) (b ∷ bs) = b ∷ chunk_lines room bs

abbrev pub chunked : Bytes → Bytes
chunked [] = []
chunked (b ∷ bs) = chunk_lines 64 (b ∷ bs)

unfoldable pub encode : Host → Bytes → Bytes → Bytes
encode h label der =
    codes "-----BEGIN "
    ++ (label
        ++ (codes "-----\n"
            ++ (chunked (h.base64 der) ++ (codes "-----END " ++ (label ++ codes "-----\n")))))

abbrev pub certificate_label : Bytes
certificate_label = codes "CERTIFICATE"

abbrev pub private_key_label : Bytes
private_key_label = codes "PRIVATE KEY"

abbrev pub rsa_private_key_label : Bytes
rsa_private_key_label = codes "RSA PRIVATE KEY"

abbrev pub ec_private_key_label : Bytes
ec_private_key_label = codes "EC PRIVATE KEY"

-- The certificates of a chain, as `save_pem` writes them.
unfoldable pub certs_pem : Host → List Bytes → Bytes
certs_pem h [] = []
certs_pem h (c ∷ cs) = encode h certificate_label c ++ certs_pem h cs
