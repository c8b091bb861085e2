-- ===== src/Rpc/Settings.antt =====
-- internal/api/public_settings.go: the settings that the site of the theme asks for.
use sounding.Prelude.{true, false, List, [], ◌∷◌, Text, bytes, float}
use sounding.Rpc.Types.{Settings, Scalar, null, flag, number, text, plain, theme}

-- `ThemeSettings`
unfoldable pub theme_settings : List (Text × Scalar)
theme_settings =
    (bytes "themeMode", text (bytes "beijing"))
    ∷ (bytes "dataUpdateInterval", number (float 3))
    ∷ (bytes "rpcTransportMode", text (bytes "websocket"))
    ∷ (bytes "nodeCardSize", text (bytes "compact"))
    ∷ (bytes "defaultViewMode", text (bytes "card"))
    ∷ (bytes "alertEnabled", flag false)
    ∷ (bytes "alertTitle", text (bytes ""))
    ∷ (bytes "alertContent", text (bytes ""))
    ∷ (bytes "visitorInfoEnabled", flag true)
    ∷ (bytes "colorVisionMode", text (bytes "标准"))
    ∷ (bytes "generalCardPreset", text (bytes "基础"))
    ∷ (bytes "generalCardKeys", text (bytes "onlineNodes\nhighLoadNodes\ntotalTraffic\nnetSpeed"))
    ∷ (bytes "homeToolsEnabled", flag true)
    ∷ (bytes "hideAdminEntryWhenLoggedOut", flag false)
    ∷ (bytes "hidePriceWhenLoggedOut", flag false)
    ∷ (bytes "providerAliases", text (bytes ""))
    ∷ (bytes "exportSecondaryPassword", text (bytes ""))
    ∷ (bytes "disablePageAnimation", flag false)
    ∷ (bytes "homeQuickControlsEnabled", flag true)
    ∷ (bytes "homeQuickControlPreset", text (bytes "完整"))
    ∷ (bytes "homeQuickControlKeys", text (bytes "favorite\ntotalTraffic\npeak\noffline"))
    ∷ (bytes "nodeListMetadataEnabled", flag true)
    ∷ (bytes "nodeListMetadataFields", text (bytes "provider\nregion\nasn"))
    ∷ (bytes "nodeListCustomTagsVisible", flag true)
    ∷ (bytes "offlineNodesLast", flag false)
    ∷ (bytes "homeHighLoadThreshold", number (float 80))
    ∷ (bytes "homeTrafficWarningThreshold", number (float 80))
    ∷ (bytes "homeExpiringDays", number (float 30))
    ∷ (bytes "diskPredictionEnabled", flag false)
    ∷ (bytes "diskPredictionThresholdDays", number (float 30))
    ∷ (bytes "nodeDetailSectionTabsEnabled", flag false)
    ∷ (bytes "detailMetricCardPreset", text (bytes "财务"))
    ∷ (
      bytes "detailMetricCardKeys",
      text (
          bytes
            "nodePrice\nmonthlyCost\nremainingTime\nremainingValue\ntotalTraffic\ntrafficQuota\nuptime\nconnections"),
    )
    ∷ (bytes "gpuChartEnabled", flag false)
    ∷ (bytes "chartDashboardPreset", text (bytes "默认"))
    ∷ (
      bytes "chartDashboardTemplate",
      text (bytes "cpu\nmemory\ndisk\nnetwork\ngpu\nconnections\nprocess"),
    )
    ∷ (bytes "backgroundEnabled", flag false)
    ∷ (bytes "backgroundType", text (bytes "image"))
    ∷ (bytes "lightBackgroundUrl", text (bytes ""))
    ∷ (bytes "darkBackgroundUrl", text (bytes ""))
    ∷ (bytes "backgroundBlur", number (float 0))
    ∷ (bytes "backgroundOverlay", number (float 0))
    ∷ []

-- `PublicSettings`
unfoldable pub public_settings : Settings
unfolding theme_settings
public_settings =
    (bytes "allow_cors", plain (flag false))
    ∷ (bytes "custom_body", plain (text (bytes "")))
    ∷ (bytes "custom_head", plain (text (bytes "")))
    ∷ (bytes "description", plain (text (bytes "sounding · 分布式探针")))
    ∷ (bytes "disable_password_login", plain (flag true))
    ∷ (bytes "oauth_enable", plain (flag false))
    ∷ (bytes "oauth_provider", plain null)
    ∷ (bytes "ping_record_preserve_time", plain (number (float 43200)))
    ∷ (bytes "private_site", plain (flag false))
    ∷ (bytes "record_enabled", plain (flag true))
    ∷ (bytes "record_preserve_time", plain (number (float 43200)))
    ∷ (bytes "sitename", plain (text (bytes "sounding")))
    ∷ (bytes "theme", plain (text (bytes "ink")))
    ∷ (bytes "theme_settings", theme theme_settings)
    ∷ (bytes "visitor_audit_enabled", plain (flag false))
    ∷ []
