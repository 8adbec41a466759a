-- ===== src/Samples.antt =====
-- Runs of the definitions on concrete inputs, module by module.
mod Certificates
mod Authorization
mod AuditLog
mod BrowserLogins
mod Management
mod Connections
mod Targets
mod Logins
mod Keys
mod Passwords
mod Secrets
mod Configured
mod Changes
mod AdminTool
