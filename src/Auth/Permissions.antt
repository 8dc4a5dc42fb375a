-- ===== src/Auth/Permissions.antt =====
-- shared/permissions.py: the catalogue of permission keys and the bundles of the built-in roles.
use gov_crawler.Base.{List, [], ◌∷◌, map}
use gov_crawler.Base.Text.{Text, codes}
use gov_crawler.Auth.{Permission}

abbrev entry : Text → Text → Permission
entry key description = record { key = key; description = description }

abbrev pub permission_catalog : List Permission
permission_catalog =
    entry (codes "users.manage") (codes "Create, edit, and revoke user accounts")
    ∷ entry (codes "roles.manage") (codes "Create and edit roles and their permission bundles")
    ∷ entry (codes "audit.view") (codes "View the audit log")
    ∷ entry (codes "settings.manage")
        (codes "Edit global crawl policy / extraction / score weights")
    ∷ entry (codes "domains.view") (codes "Browse the domains catalog")
    ∷ entry (codes "domains.import") (codes "Trigger a domains catalog import/refresh")
    ∷ entry (codes "crawl.run") (codes "Create and start crawl jobs; cancel own jobs")
    ∷ entry (codes "crawl.cancel_all") (codes "Cancel any user's crawl job")
    ∷ entry (codes "jobs.view_all") (codes "See all users' crawl jobs (else own only)")
    ∷ entry (codes "leads.view") (codes "Browse the shared leads pool")
    ∷ entry (codes "leads.edit") (codes "Edit lead fields")
    ∷ entry (codes "leads.export") (codes "Export leads to CSV")
    ∷ entry (codes "leads.import") (codes "Bulk-import leads from CSV")
    ∷ entry (codes "campaigns.manage") (codes "Create and edit campaigns, templates usage")
    ∷ entry (codes "campaigns.dispatch") (codes "Start/pause/cancel campaign dispatch")
    ∷ entry (codes "campaigns.view_all") (codes "See all users' campaigns (else own only)")
    ∷ entry (codes "templates.manage") (codes "Create, edit, and delete email templates")
    ∷ entry (codes "credentials.manage") (codes "Create, edit, and delete SMTP credentials")
    ∷ entry (codes "blacklist.manage") (codes "Add/remove blacklist entries")
    ∷ []

abbrev pub permission_keys : List Text
permission_keys = map (λ (p : Permission). p.key) permission_catalog

abbrev operator_keys : List Text
operator_keys =
    codes "domains.view"
    ∷ codes "domains.import"
    ∷ codes "crawl.run"
    ∷ codes "leads.view"
    ∷ codes "leads.edit"
    ∷ codes "leads.export"
    ∷ codes "leads.import"
    ∷ codes "campaigns.manage"
    ∷ codes "campaigns.dispatch"
    ∷ codes "templates.manage"
    ∷ codes "credentials.manage"
    ∷ codes "blacklist.manage"
    ∷ []

abbrev viewer_keys : List Text
viewer_keys = codes "domains.view" ∷ codes "leads.view" ∷ []

-- Role name and keys, in the order of the dictionary.
abbrev pub role_defaults : List (Text × List Text)
role_defaults =
    (codes "Admin", permission_keys)
    ∷ (codes "Operator", operator_keys)
    ∷ (codes "Viewer", viewer_keys)
    ∷ []
