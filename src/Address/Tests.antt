-- ===== src/Address/Tests.antt =====
-- A run on a point of the group of order 97.
use tron_wallet_searcher.Common.{ℕ, ◌≡◌, ◌⊎◌, List, ok, err, true, false, drop}
use tron_wallet_searcher.PrefixFilter.{host_decode_base58}
use tron_wallet_searcher.OpenSsl.Toy.{toy, toy-IsPrinted}
use tron_wallet_searcher.Address.{point_to_address, not_serialized}
use tron_wallet_searcher.Address.Payload.{tron_payload, point_to_address-decodes}

point_to_address-decodes_example :
    ((toy.is_at_infinity 5 ≡ true) × (point_to_address toy 5 ≡ err not_serialized))
    ⊎ ((toy.is_at_infinity 5 ≡ false)
        × ((address : List ℕ) × (point_to_address toy 5 ≡ ok address)
            × (host_decode_base58 address
                ≡ ok (tron_payload toy.sha256 (drop 1 (toy.uncompressed 5))))))
point_to_address-decodes_example = point_to_address-decodes toy 5 toy-IsPrinted
