-- ===== src/Tests/Addresses.antt =====
-- Addresses read and printed.
use pfsnitch.Addr.{v4, v6, parse_ip, show_ip}
use pfsnitch.Base.{◌≡◌, refl, some, [], ◌∷◌}
use pfsnitch.Text.{codes}

test_v4 : parse_ip (codes "203.0.113.9") ≡ some (v4 (203 ∷ 0 ∷ 113 ∷ 9 ∷ []))
unfolding parse_ip
test_v4 = refl

test_v6 :
    parse_ip (codes "2606:4700:4700::1111")
    ≡ some (v6 (0x26 ∷ 6 ∷ 0x47 ∷ 0 ∷ 0x47 ∷ 0 ∷ 0 ∷ 0 ∷ 0 ∷ 0 ∷ 0 ∷ 0 ∷ 0 ∷ 0 ∷ 0x11 ∷ 0x11 ∷ []))
unfolding parse_ip
test_v6 = refl

test_show :
    show_ip (v6 (0x26 ∷ 6 ∷ 0x47 ∷ 0 ∷ 0x47 ∷ 0 ∷ 0 ∷ 0 ∷ 0 ∷ 0 ∷ 0 ∷ 0 ∷ 0 ∷ 0 ∷ 0x11 ∷ 0x11 ∷ []))
    ≡ codes "2606:4700:4700::1111"
unfolding show_ip
test_show = refl
