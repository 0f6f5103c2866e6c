-- ===== src/Tests.antt =====
-- Concrete runs of the definitions.
mod Data
mod Claims
mod Selections
mod Starts
mod Guards
mod Players
mod Responses
mod Builds
mod Rpcs
mod Requests
mod Histories
mod Replies
mod Shows
mod Paths
mod Proxies
