-- ===== src/App/Networks.antt =====
-- The networks of the program and those of the explorer.
use banco.Prelude.{String, some, ◌≡◌, ◌↔◌, refl, lookup, inl, inr, Bool-cases, str_eq}
use banco.Offer.Funding.{Network}
use banco.Result.{ok}
use banco.Esplora.Client.{Esplora, new_esplora, esplora_api_urls, esplora_urls}
use banco.App.{supported_networks}

-- A name is that of a supported network exactly if NewEsplora makes a client for it, and there is an
-- address of the explorer's pages for the same names.
pub supported-new_esplora :
    (name : String)
    → (((net : Network) × (lookup name supported_networks ≡ some net))
        ↔ ((e : Esplora) × (new_esplora name ≡ ok e)))
      × (((net : Network) × (lookup name supported_networks ≡ some net))
          ↔ ((url : String) × (lookup name esplora_urls ≡ some url)))
unfolding supported_networks new_esplora esplora_api_urls esplora_urls
supported-new_esplora name = elim (Bool-cases (str_eq "liquid" name)) [
  | inl a ↦ rw a ((λ h. (_, refl), λ h. (_, refl)), (λ h. (_, refl), λ h. (_, refl)))
  | inr a ↦ elim (Bool-cases (str_eq "testnet" name)) [
    | inl b ↦ rw (a, b) ((λ h. (_, refl), λ h. (_, refl)), (λ h. (_, refl), λ h. (_, refl)))
    | inr b ↦ elim (Bool-cases (str_eq "regtest" name)) [
      | inl c ↦ rw (a, b, c) ((λ h. (_, refl), λ h. (_, refl)), (λ h. (_, refl), λ h. (_, refl)))
      | inr c ↦
          rw (a, b, c)
            (
              (λ (x, h). absurd (cc h), λ (x, h). absurd (cc h)),
              (λ (x, h). absurd (cc h), λ (x, h). absurd (cc h)),
            )
    ]
  ]
]
