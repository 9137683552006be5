-- ===== src/Tests/Linking.antt =====
-- Examples for the linking of Telegram accounts.
use deping_client_service.Base.{exists_where, refl, select_one, true, ◌≡◌}
use deping_client_service.World.{calm, err, message}
use deping_client_service.Telegram.Link.{verify_link_once}
use deping_client_service.Telegram.Service.{verify_link}
use deping_client_service.Tests.{bob, sample_world}

verify_link_once_example :
    let w' = (verify_link true "00ff10a0" 88 "bob" (calm sample_world)).1 in
    verify_link true "00ff10a0" 88 "bob" (calm w')
    ≡ (err (message "invalid or expired verification code"), w')
unfolding select_one exists_where
verify_link_once_example =
    verify_link_once true "00ff10a0" 88 "bob" sample_world {t = bob} refl refl refl refl refl
