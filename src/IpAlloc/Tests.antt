-- ===== src/IpAlloc/Tests.antt =====
-- The theorems on addresses in the sample subnet.
use fredoomeaxima.Common.{ℕ, ◌≡◌, ◌<◌, ◌⊎◌, true, ◌∷◌}
use fredoomeaxima.Exec.{Error, ok, err}
use fredoomeaxima.IpAlloc.{next_free_ip, int_to_ip}
use fredoomeaxima.IpAlloc.Allocation.{IsLeastHost, occurs, next_free_ip_least}
use fredoomeaxima.IpAlloc.Samples.{digits_of, subnet, server_address, in_use, parsed}

next_free_ip_least_example :
    ((c : ℕ) × (next_free_ip digits_of subnet server_address in_use ≡ ok (int_to_ip c))
      × IsLeastHost parsed.info parsed.server parsed.used c)
    ⊎ (((e : Error) × (next_free_ip digits_of subnet server_address in_use ≡ err e))
        × ((n : ℕ)
            → parsed.info.network < n
            → n < parsed.info.broadcast
            → occurs n (parsed.server ∷ parsed.used) ≡ true))
next_free_ip_least_example = next_free_ip_least digits_of subnet server_address in_use parsed
