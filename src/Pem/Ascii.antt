-- ===== src/Pem/Ascii.antt =====
-- The text form is ASCII: as a `String` and as bytes it is the same.
use net_tls.Prelude.{ℕ, zero, suc, ◌<◌, ◌≡◌, [], ◌∷◌, ◌++◌, All, All-append, arith}
use net_tls.Prelude.Text.{Bytes, codes, utf8, utf8_ascii}
use net_tls.Host.{Host}
use net_tls.Pem.{chunk_lines, chunked, encode, certificate_label}

abbrev pub IsAsciiChar : ℕ → Type 0
IsAsciiChar c = c < 128

chunk_lines-IsAscii :
    (room : ℕ) (b : Bytes) → All IsAsciiChar b → All IsAsciiChar (chunk_lines room b)
unfolding chunk_lines
chunk_lines-IsAscii room [] h = (omega arith, tt)
chunk_lines-IsAscii zero (b ∷ bs) (p, h) = (omega arith, (p, chunk_lines-IsAscii 63 bs h))
chunk_lines-IsAscii (suc room) (b ∷ bs) (p, h) = (p, chunk_lines-IsAscii room bs h)

chunked-IsAscii : (b : Bytes) → All IsAsciiChar b → All IsAsciiChar (chunked b)
chunked-IsAscii [] h = tt
chunked-IsAscii (b ∷ bs) h = chunk_lines-IsAscii 64 (b ∷ bs) h

begin-IsAscii : All IsAsciiChar (codes "-----BEGIN CERTIFICATE-----\n")
begin-IsAscii = ground arith

end-IsAscii : All IsAsciiChar (codes "-----END CERTIFICATE-----\n")
end-IsAscii = ground arith

pub utf8-encode :
    (h : Host)
    → ((b : Bytes) → All IsAsciiChar (h.base64 b))
    → (der : Bytes) → utf8 (encode h certificate_label der) ≡ encode h certificate_label der
unfolding encode
utf8-encode h ascii der = utf8_ascii (encode h certificate_label der) (
    All-append IsAsciiChar (codes "-----BEGIN CERTIFICATE-----\n")
      (chunked (h.base64 der) ++ codes "-----END CERTIFICATE-----\n") begin-IsAscii
      (All-append IsAsciiChar (chunked (h.base64 der)) (codes "-----END CERTIFICATE-----\n")
        (chunked-IsAscii (h.base64 der) (ascii der)) end-IsAscii))
