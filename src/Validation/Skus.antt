-- ===== src/Validation/Skus.antt =====
-- pkg/helpers/helpers.go: `AcceleratedNetworkingSupported`.
use aks_engine.Common.{String, Bool, List, [], ◌∷◌, elem, if◌then◌else◌, ◌==◌, string_eq}

abbrev pub accelerated_skus : List String
accelerated_skus =
    "Standard_D3_v2" ∷ "Standard_D12_v2" ∷ "Standard_DS13-4_v2" ∷ "Standard_DS14-4_v2"
    ∷ "Standard_F4" ∷ "Standard_F4s" ∷ "Standard_D8_v3" ∷ "Standard_D8s_v3" ∷ "Standard_D32-8s_v3"
    ∷ "Standard_E8_v3" ∷ "Standard_E8s_v3" ∷ "Standard_D3_v2_ABC" ∷ "Standard_D12_v2_ABC"
    ∷ "Standard_F4_ABC" ∷ "Standard_F8s_v2" ∷ "Standard_D4_v2" ∷ "Standard_D13_v2"
    ∷ "Standard_DS4_v2" ∷ "Standard_DS13_v2" ∷ "Standard_DS14-8_v2" ∷ "Standard_F8s"
    ∷ "Standard_M64-16ms" ∷ "Standard_D16_v3" ∷ "Standard_D16s_v3" ∷ "Standard_D32-16s_v3"
    ∷ "Standard_D64-16s_v3" ∷ "Standard_E16_v3" ∷ "Standard_E16s_v3" ∷ "Standard_E32-16s_v3"
    ∷ "Standard_D4_v2_ABC" ∷ "Standard_D13_v2_ABC" ∷ "Standard_F8" ∷ "Standard_F8_ABC"
    ∷ "Standard_F16s_v2" ∷ "Standard_D5_v2" ∷ "Standard_D14_v2" ∷ "Standard_DS5_v2"
    ∷ "Standard_DS14_v2" ∷ "Standard_F16" ∷ "Standard_F16s" ∷ "Standard_M64-32ms"
    ∷ "Standard_M128-32ms" ∷ "Standard_D32_v3" ∷ "Standard_D32s_v3" ∷ "Standard_D64-32s_v3"
    ∷ "Standard_E32_v3" ∷ "Standard_E32s_v3" ∷ "Standard_E32-8s_v3" ∷ "Standard_E32-16_v3"
    ∷ "Standard_D5_v2_ABC" ∷ "Standard_D14_v2_ABC" ∷ "Standard_F16_ABC" ∷ "Standard_F32s_v2"
    ∷ "Standard_D15_v2" ∷ "Standard_DS15_v2" ∷ "Standard_D40_v3" ∷ "Standard_D40s_v3"
    ∷ "Standard_D15_v2_ABC" ∷ "Standard_M64ms" ∷ "Standard_M64s" ∷ "Standard_M128-64ms"
    ∷ "Standard_D64_v3" ∷ "Standard_D64s_v3" ∷ "Standard_E64_v3" ∷ "Standard_E64s_v3"
    ∷ "Standard_E64-16s_v3" ∷ "Standard_E64-32s_v3" ∷ "Standard_F64s_v2" ∷ "Standard_F72s_v2"
    ∷ "Standard_M128s" ∷ "Standard_M128ms" ∷ "Standard_L8s_v2" ∷ "Standard_L16s_v2"
    ∷ "Standard_L32s_v2" ∷ "Standard_L64s_v2" ∷ "Standard_L96s_v2" ∷ "SQLGL" ∷ "SQLGLCore"
    ∷ "Standard_D4_v3" ∷ "Standard_D4s_v3" ∷ "Standard_D2_v2" ∷ "Standard_DS2_v2" ∷ "Standard_E4_v3"
    ∷ "Standard_E4s_v3" ∷ "Standard_F2" ∷ "Standard_F2s" ∷ "Standard_F4s_v2" ∷ "Standard_D11_v2"
    ∷ "Standard_DS11_v2" ∷ "AZAP_Performance_ComputeV17C" ∷ []

-- strings.TrimSuffix(sku, "_Promo")
unfoldable pub trim_promo : String → String
trim_promo String.[] = String.[]
trim_promo (String.◌∷◌ c s) =
    let later = trim_promo s in if String.◌∷◌ c s == "_Promo" then String.[] else String.◌∷◌ c later

unfoldable pub accelerated_networking_supported : String → Bool
unfolding trim_promo
accelerated_networking_supported sku = elem (trim_promo sku) accelerated_skus
