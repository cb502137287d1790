-- ===== src/Config/Servers.antt =====
-- How `new_server` splits `host:port`.
use trollbot.Prelude.{ℕ, pos, ◌≡◌, refl, ap, false, [], ◌∷◌, ◌++◌, none, some, arith, ◌==◌, Bytes}
use trollbot.Text.{has_byte}
use trollbot.Text.Number.{atoi}
use trollbot.Config.{split_at, server_of, new_server}

split_at-first :
    (c : ℕ) (g s : Bytes) → has_byte c g ≡ false → split_at c (g ++ c ∷ s) ≡ some (g, s)
unfolding split_at has_byte
split_at-first c [] s h = ground arith
split_at-first c (a ∷ g) s h =
    let miss : (a == c) ≡ false = ground arith in
    let later : has_byte c g ≡ false = ground arith in rw (miss, split_at-first c g s later)

split_at-none : (c : ℕ) (g : Bytes) → has_byte c g ≡ false → split_at c g ≡ none
unfolding split_at has_byte
split_at-none c [] h = refl
split_at-none c (a ∷ g) h =
    let miss : (a == c) ≡ false = ground arith in
    let later : has_byte c g ≡ false = ground arith in rw (miss, split_at-none c g later)

-- A server with a colon is the host before the first one and the port that `atoi` reads behind it;
-- a host alone has the port 6667.
pub new_server-host :
    (host s : Bytes)
    → has_byte b':' host ≡ false
    → (new_server (some (host ++ b':' ∷ s)) ≡ record { host = some host; port = atoi s })
      × (new_server (some host) ≡ record { host = some host; port = pos 6667 })
unfolding new_server
new_server-host host s h = (
  ap (server_of (host ++ b':' ∷ s)) (split_at-first b':' host s h),
  ap (server_of host) (split_at-none b':' host h),
)
