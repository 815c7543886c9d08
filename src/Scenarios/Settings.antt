-- ===== src/Scenarios/Settings.antt =====
-- An environment that names the real GitHub adapter and its token.
use talos_app.Prelude.{some, none, str_eq, if◌then◌else◌}
use talos_app.Config.{Environment}

abbrev real_github : Environment
real_github key =
    if str_eq key "PLATFORM_GITHUB_ADAPTER"
    then some "real"
    else if str_eq key "PLATFORM_GITHUB_TOKEN"
    then some "token"
    else none
