-- ===== src/Gui/Address.antt =====
-- The data connection's address in client/main.c: the PORT command of do_data, and the scan of the
-- reply to PASV in pasv_address.
use zz_ftp.Prelude.{
  ℕ, ◌+◌, ◌*◌, Bool, true, false, not, Option, none, some, List, [], ◌∷◌, ◌++◌, ◌==◌, if◌then◌else◌,
  Bytes, codes, leb,
}
use zz_ftp.Text.{is_digit, show, truncate_to, scan_fields, show_fields}

-- s of do_data, for the six bytes of `addr`; the array has 64 bytes.
unfoldable pub port_command : ℕ → List ℕ → Bytes
port_command a rest = truncate_to 64 (codes "PORT " ++ (show_fields a rest ++ codes "\r\n"))

-- while (*p != '\0' && !isdigit(*p)) p++;
unfoldable pub skip_to_digit : Bytes → Bytes
unfolding is_digit
skip_to_digit [] = []
skip_to_digit (c ∷ cs) = if is_digit c then c ∷ cs else skip_to_digit cs

-- for (int i = 0; i < 6; i++) if (x[i] >= 256) goto exception;
unfoldable pub all_bytes : List ℕ → Bool
all_bytes [] = true
all_bytes (x ∷ xs) = if leb 256 x then false else all_bytes xs

-- The host and the port that xfer_init() is called with; the array of the host has 16 bytes.
unfoldable pub host_and_port : List ℕ → Option (Bytes × ℕ)
host_and_port (a ∷ b ∷ c ∷ d ∷ hi ∷ lo ∷ []) = some (
  truncate_to 16
      (show a ++ (codes "." ++ (show b ++ (codes "." ++ (show c ++ (codes "." ++ show d)))))),
  hi * 256 + lo,
)
host_and_port _ = none

unfoldable pub checked_address : Option (List ℕ) → Option (Bytes × ℕ)
unfolding all_bytes host_and_port
checked_address none = none
checked_address (some xs) = if all_bytes xs then host_and_port xs else none

-- `none`: the branch `exception`.
unfoldable pub scan_reply : Bytes → Option (Bytes × ℕ)
unfolding checked_address
scan_reply [] = none
scan_reply (c ∷ cs) = checked_address (scan_fields 5 (c ∷ cs))

unfoldable pub pasv_address : ℕ → Bytes → Option (Bytes × ℕ)
unfolding skip_to_digit scan_reply
pasv_address code s = if not (code == 227) then none else scan_reply (skip_to_digit s)
