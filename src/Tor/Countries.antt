-- ===== src/Tor/Countries.antt =====
-- controller/internal/tor/geoip.go: the table of the centres of the countries. Degrees are in hundredths.
use torvmremix.Base.{List, [], ◌∷◌, ◌++◌, ℤ, pos, negsuc, Bytes, String, bytes}

abbrev pub Place : Type 0
Place = Bytes × (ℤ × ℤ)

abbrev at : String → ℤ → ℤ → Place
at code latitude longitude = (bytes code, (latitude, longitude))

first_centroids : List Place
first_centroids =
    at "AD" (pos 4250) (pos 150)
    ∷ at "AE" (pos 2400) (pos 5400)
    ∷ at "AF" (pos 3300) (pos 6500)
    ∷ at "AG" (pos 1705) (negsuc 6179)
    ∷ at "AI" (pos 1820) (negsuc 6309)
    ∷ at "AL" (pos 4100) (pos 2000)
    ∷ at "AM" (pos 4000) (pos 4500)
    ∷ at "AO" (negsuc 1249) (pos 1850)
    ∷ at "AR" (negsuc 3399) (negsuc 6399)
    ∷ at "AS" (negsuc 1429) (negsuc 16999)
    ∷ at "AT" (pos 4730) (pos 1330)
    ∷ at "AU" (negsuc 2499) (pos 13500)
    ∷ at "AW" (pos 1250) (negsuc 6999)
    ∷ at "AZ" (pos 4050) (pos 4750)
    ∷ at "BA" (pos 4400) (pos 1800)
    ∷ at "BB" (pos 1320) (negsuc 5949)
    ∷ at "BD" (pos 2400) (pos 9000)
    ∷ at "BE" (pos 5080) (pos 400)
    ∷ at "BF" (pos 1300) (negsuc 199)
    ∷ at "BG" (pos 4300) (pos 2500)
    ∷ at "BH" (pos 2600) (pos 5050)
    ∷ at "BI" (negsuc 349) (pos 2950)
    ∷ at "BJ" (pos 950) (pos 230)
    ∷ at "BM" (pos 3230) (negsuc 6479)
    ∷ at "BN" (pos 450) (pos 11470)
    ∷ at "BO" (negsuc 1699) (negsuc 6499)
    ∷ at "BR" (negsuc 999) (negsuc 5499)
    ∷ at "BS" (pos 2430) (negsuc 7599)
    ∷ at "BT" (pos 2750) (pos 9050)
    ∷ at "BW" (negsuc 2199) (pos 2400)
    ∷ at "BY" (pos 5300) (pos 2800)
    ∷ at "BZ" (pos 1730) (negsuc 8879)
    ∷ at "CA" (pos 6000) (negsuc 9599)
    ∷ at "CD" (pos 0) (pos 2500)
    ∷ at "CF" (pos 700) (pos 2100)
    ∷ at "CG" (negsuc 99) (pos 1500)
    ∷ at "CH" (pos 4700) (pos 800)
    ∷ at "CI" (pos 800) (negsuc 499)
    ∷ at "CL" (negsuc 2999) (negsuc 7099)
    ∷ at "CM" (pos 600) (pos 1200)
    ∷ at "CN" (pos 3500) (pos 10500)
    ∷ at "CO" (pos 400) (negsuc 7199)
    ∷ at "CR" (pos 1000) (negsuc 8399)
    ∷ at "CU" (pos 2200) (negsuc 7949)
    ∷ at "CV" (pos 1600) (negsuc 2399)
    ∷ at "CW" (pos 1220) (negsuc 6899)
    ∷ at "CY" (pos 3500) (pos 3300)
    ∷ at "CZ" (pos 4980) (pos 1550)
    ∷ at "DE" (pos 5100) (pos 900)
    ∷ at "DJ" (pos 1150) (pos 4310)
    ∷ at "DK" (pos 5600) (pos 1000)
    ∷ at "DM" (pos 1540) (negsuc 6139)
    ∷ at "DO" (pos 1900) (negsuc 7069)
    ∷ at "DZ" (pos 2800) (pos 300)
    ∷ at "EC" (negsuc 199) (negsuc 7749)
    ∷ at "EE" (pos 5900) (pos 2600)
    ∷ at "EG" (pos 2700) (pos 3000)
    ∷ at "ER" (pos 1500) (pos 3900)
    ∷ at "ES" (pos 4000) (negsuc 399)
    ∷ at "ET" (pos 800) (pos 3800)
    ∷ at "FI" (pos 6400) (pos 2600)
    ∷ at "FJ" (negsuc 1799) (pos 17900)
    ∷ at "FK" (negsuc 5179) (negsuc 5899)
    ∷ at "FM" (pos 690) (pos 15820)
    ∷ at "FO" (pos 6200) (negsuc 699)
    ∷ at "FR" (pos 4600) (pos 200)
    ∷ at "GA" (negsuc 99) (pos 1180)
    ∷ at "GB" (pos 5400) (negsuc 199)
    ∷ at "GD" (pos 1210) (negsuc 6169)
    ∷ at "GE" (pos 4200) (pos 4350)
    ∷ at "GF" (pos 400) (negsuc 5299)
    ∷ at "GG" (pos 4950) (negsuc 249)
    ∷ at "GH" (pos 800) (negsuc 199)
    ∷ at "GI" (pos 3610) (negsuc 539)
    ∷ at "GL" (pos 7200) (negsuc 3999)
    ∷ at "GM" (pos 1350) (negsuc 1549)
    ∷ at "GN" (pos 1100) (negsuc 999)
    ∷ at "GP" (pos 1630) (negsuc 6159)
    ∷ at "GQ" (pos 200) (pos 1000)
    ∷ at "GR" (pos 3900) (pos 2200)
    ∷ at "GT" (pos 1550) (negsuc 9029)
    ∷ at "GU" (pos 1340) (pos 14480)
    ∷ at "GW" (pos 1200) (negsuc 1499)
    ∷ at "GY" (pos 500) (negsuc 5899)
    ∷ at "HK" (pos 2230) (pos 11420)
    ∷ at "HN" (pos 1500) (negsuc 8649)
    ∷ at "HR" (pos 4520) (pos 1550)
    ∷ at "HT" (pos 1900) (negsuc 7239)
    ∷ at "HU" (pos 4700) (pos 2000)
    ∷ at "ID" (negsuc 499) (pos 12000)
    ∷ at "IE" (pos 5300) (negsuc 799)
    ∷ at "IL" (pos 3150) (pos 3480)
    ∷ at "IM" (pos 5420) (negsuc 449)
    ∷ at "IN" (pos 2000) (pos 7700)
    ∷ at "IQ" (pos 3300) (pos 4400)
    ∷ at "IR" (pos 3200) (pos 5300)
    ∷ at "IS" (pos 6500) (negsuc 1799)
    ∷ at "IT" (pos 4280) (pos 1280)
    ∷ at "JE" (pos 4920) (negsuc 209)
    ∷ at "JM" (pos 1830) (negsuc 7749)
    ∷ at "JO" (pos 3100) (pos 3600)
    ∷ at "JP" (pos 3600) (pos 13800)
    ∷ at "KE" (pos 100) (pos 3800)
    ∷ at "KG" (pos 4100) (pos 7500)
    ∷ at "KH" (pos 1300) (pos 10500)
    ∷ at "KI" (pos 140) (pos 17300)
    ∷ at "KM" (negsuc 1219) (pos 4430)
    ∷ at "KN" (pos 1730) (negsuc 6269)
    ∷ at "KP" (pos 4000) (pos 12700)
    ∷ at "KR" (pos 3700) (pos 12750)
    ∷ at "KW" (pos 2950) (pos 4780)
    ∷ at "KY" (pos 1930) (negsuc 8129)
    ∷ at "KZ" (pos 4800) (pos 6800)
    ∷ at "LA" (pos 1800) (pos 10500)
    ∷ at "LB" (pos 3380) (pos 3580)
    ∷ []

second_centroids : List Place
second_centroids =
    at "LC" (pos 1390) (negsuc 6099)
    ∷ at "LI" (pos 4720) (pos 950)
    ∷ at "LK" (pos 700) (pos 8100)
    ∷ at "LR" (pos 650) (negsuc 949)
    ∷ at "LS" (negsuc 2949) (pos 2850)
    ∷ at "LT" (pos 5600) (pos 2400)
    ∷ at "LU" (pos 4980) (pos 610)
    ∷ at "LV" (pos 5700) (pos 2500)
    ∷ at "LY" (pos 2500) (pos 1700)
    ∷ at "MA" (pos 3200) (negsuc 499)
    ∷ at "MC" (pos 4370) (pos 740)
    ∷ at "MD" (pos 4700) (pos 2900)
    ∷ at "ME" (pos 4250) (pos 1930)
    ∷ at "MG" (negsuc 1999) (pos 4700)
    ∷ at "MH" (pos 900) (pos 16800)
    ∷ at "MK" (pos 4150) (pos 2140)
    ∷ at "ML" (pos 1700) (negsuc 399)
    ∷ at "MM" (pos 2200) (pos 9800)
    ∷ at "MN" (pos 4600) (pos 10500)
    ∷ at "MO" (pos 2220) (pos 11350)
    ∷ at "MP" (pos 1520) (pos 14580)
    ∷ at "MQ" (pos 1470) (negsuc 6099)
    ∷ at "MR" (pos 2000) (negsuc 1199)
    ∷ at "MS" (pos 1670) (negsuc 6219)
    ∷ at "MT" (pos 3590) (pos 1440)
    ∷ at "MU" (negsuc 2029) (pos 5760)
    ∷ at "MV" (pos 320) (pos 7320)
    ∷ at "MW" (negsuc 1349) (pos 3400)
    ∷ at "MX" (pos 2300) (negsuc 10199)
    ∷ at "MY" (pos 250) (pos 11250)
    ∷ at "MZ" (negsuc 1829) (pos 3500)
    ∷ at "NA" (negsuc 2199) (pos 1700)
    ∷ at "NC" (negsuc 2149) (pos 16550)
    ∷ at "NE" (pos 1600) (pos 800)
    ∷ at "NG" (pos 1000) (pos 800)
    ∷ at "NI" (pos 1300) (negsuc 8499)
    ∷ at "NL" (pos 5250) (pos 580)
    ∷ at "NO" (pos 6200) (pos 1000)
    ∷ at "NP" (pos 2800) (pos 8400)
    ∷ at "NR" (negsuc 49) (pos 16690)
    ∷ at "NZ" (negsuc 4199) (pos 17400)
    ∷ at "OM" (pos 2100) (pos 5700)
    ∷ at "PA" (pos 900) (negsuc 7999)
    ∷ at "PE" (negsuc 999) (negsuc 7599)
    ∷ at "PF" (negsuc 1499) (negsuc 13999)
    ∷ at "PG" (negsuc 599) (pos 14700)
    ∷ at "PH" (pos 1300) (pos 12200)
    ∷ at "PK" (pos 3000) (pos 7000)
    ∷ at "PL" (pos 5200) (pos 2000)
    ∷ at "PM" (pos 4680) (negsuc 5629)
    ∷ at "PR" (pos 1830) (negsuc 6649)
    ∷ at "PS" (pos 3190) (pos 3520)
    ∷ at "PT" (pos 3950) (negsuc 799)
    ∷ at "PW" (pos 750) (pos 13450)
    ∷ at "PY" (negsuc 2299) (negsuc 5799)
    ∷ at "QA" (pos 2550) (pos 5130)
    ∷ at "RE" (negsuc 2109) (pos 5550)
    ∷ at "RO" (pos 4600) (pos 2500)
    ∷ at "RS" (pos 4400) (pos 2100)
    ∷ at "RU" (pos 6000) (pos 10000)
    ∷ at "RW" (negsuc 199) (pos 2990)
    ∷ at "SA" (pos 2500) (pos 4500)
    ∷ at "SB" (negsuc 799) (pos 15900)
    ∷ at "SC" (negsuc 469) (pos 5550)
    ∷ at "SD" (pos 1500) (pos 3000)
    ∷ at "SE" (pos 6200) (pos 1500)
    ∷ at "SG" (pos 140) (pos 10380)
    ∷ at "SI" (pos 4610) (pos 1480)
    ∷ at "SK" (pos 4870) (pos 1950)
    ∷ at "SL" (pos 850) (negsuc 1179)
    ∷ at "SM" (pos 4390) (pos 1240)
    ∷ at "SN" (pos 1400) (negsuc 1399)
    ∷ at "SO" (pos 1000) (pos 4900)
    ∷ at "SR" (pos 400) (negsuc 5599)
    ∷ at "SS" (pos 700) (pos 3000)
    ∷ at "ST" (pos 100) (pos 700)
    ∷ at "SV" (pos 1380) (negsuc 8889)
    ∷ at "SX" (pos 1800) (negsuc 6299)
    ∷ at "SY" (pos 3500) (pos 3800)
    ∷ at "SZ" (negsuc 2649) (pos 3150)
    ∷ at "TC" (pos 2180) (negsuc 7179)
    ∷ at "TD" (pos 1500) (pos 1900)
    ∷ at "TG" (pos 800) (pos 120)
    ∷ at "TH" (pos 1500) (pos 10000)
    ∷ at "TJ" (pos 3900) (pos 7100)
    ∷ at "TL" (negsuc 879) (pos 12600)
    ∷ at "TM" (pos 4000) (pos 6000)
    ∷ at "TN" (pos 3400) (pos 900)
    ∷ at "TO" (negsuc 1999) (negsuc 17499)
    ∷ at "TR" (pos 3900) (pos 3500)
    ∷ at "TT" (pos 1100) (negsuc 6099)
    ∷ at "TV" (negsuc 799) (pos 17800)
    ∷ at "TW" (pos 2350) (pos 12100)
    ∷ at "TZ" (negsuc 599) (pos 3500)
    ∷ at "UA" (pos 4900) (pos 3200)
    ∷ at "UG" (pos 100) (pos 3200)
    ∷ at "US" (pos 3800) (negsuc 9699)
    ∷ at "UY" (negsuc 3299) (negsuc 5599)
    ∷ at "UZ" (pos 4100) (pos 6400)
    ∷ at "VA" (pos 4190) (pos 1250)
    ∷ at "VC" (pos 1330) (negsuc 6119)
    ∷ at "VE" (pos 800) (negsuc 6599)
    ∷ at "VG" (pos 1840) (negsuc 6459)
    ∷ at "VI" (pos 1830) (negsuc 6489)
    ∷ at "VN" (pos 1600) (pos 10800)
    ∷ at "VU" (negsuc 1599) (pos 16700)
    ∷ at "WS" (negsuc 1359) (negsuc 17229)
    ∷ at "XK" (pos 4260) (pos 2100)
    ∷ at "YE" (pos 1500) (pos 4800)
    ∷ at "ZA" (negsuc 2899) (pos 2400)
    ∷ at "ZM" (negsuc 1499) (pos 3000)
    ∷ at "ZW" (negsuc 1999) (pos 3000)
    ∷ []

unfoldable pub country_centroids : List Place
unfolding first_centroids second_centroids
country_centroids = first_centroids ++ second_centroids
